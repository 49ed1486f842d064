-- ===== src/Input/Cut.antt =====
-- How the loop of `planText` cuts a text (input/src/action-plan.ts).
use ai_macos.Base.{
  ℕ, ◌+◌, ◌≤◌, ◌<◌, ◌≡◌, refl, sym, ap, subst, ◌∙◌, ◌⊎◌, inl, inr, false, ◌&&◌, List, [], ◌∷◌, ◌++◌,
  map, arith, leb, ltb, length, Bool-cases, All, All-append, subst₂, if◌then◌else◌,
}
use ai_macos.Input.{Utf16}
use ai_macos.Input.Text.{TextChunk, Pieces, flush, append_grapheme, cut, chunks_of}

-- The texts one after another.
abbrev pub join : List Utf16 → Utf16
join [] = []
join (t ∷ texts) = t ++ join texts

abbrev pub counts : List TextChunk → ℕ
counts [] = 0
counts (c ∷ chunks) = c.grapheme_count + counts chunks

abbrev pub text_of : TextChunk → Utf16
text_of c = c.text

++_assoc : (a b c : Utf16) → (a ++ b) ++ c ≡ a ++ (b ++ c)
++_assoc [] b c = refl
++_assoc (x ∷ a) b c = ap (λ l. x ∷ l) (++_assoc a b c)

++_nil : (a : Utf16) → a ++ [] ≡ a
++_nil [] = refl
++_nil (x ∷ a) = ap (λ l. x ∷ l) (++_nil a)

length-++ : (a b : Utf16) → length (a ++ b) ≡ length a + length b
length-++ [] b = omega arith
length-++ (x ∷ a) b = omega (arith, length-++ a b)

join-append :
    (chunks : List TextChunk) (c : TextChunk)
    → join (map text_of (chunks ++ (c ∷ []))) ≡ join (map text_of chunks) ++ c.text
join-append [] c = ++_nil c.text
join-append (d ∷ chunks) c =
    ap (λ l. d.text ++ l) (join-append chunks c)
    ∙ sym (++_assoc d.text (join (map text_of chunks)) c.text)

counts-append :
    (chunks : List TextChunk) (c : TextChunk)
    → counts (chunks ++ (c ∷ [])) ≡ counts chunks + c.grapheme_count
counts-append [] c = omega arith
counts-append (d ∷ chunks) c = omega (arith, counts-append chunks c)

-- A chunk counts its units and is within the limit, unless it is one grapheme.
pub record IsChunk (limit : ℕ) (c : TextChunk) : Type 0 where
  pub units : c.utf16_units ≡ length c.text
  pub nonempty : 0 < c.utf16_units
  pub within : (c.utf16_units ≤ limit) ⊎ (c.grapheme_count ≡ 1)

-- The loop has so far cut the text from so many graphemes.
pub record HasCut (limit : ℕ) (text : Utf16) (graphemes : ℕ) (s : Pieces) : Type 0 where
  pub joined : join (map text_of s.chunks) ++ s.current ≡ text
  pub counted : counts s.chunks + s.current_count ≡ graphemes
  pub chunked : All (IsChunk limit) s.chunks
  started : length s.current ≡ 0 → s.current_count ≡ 0
  pub within : (length s.current ≤ limit) ⊎ (s.current_count ≡ 1)

empty_of_length : (t : Utf16) → length t ≡ 0 → t ≡ []
empty_of_length [] h = refl
empty_of_length (x ∷ t) h = absurd (omega (arith, h))

abbrev chunk_of : Pieces → TextChunk
chunk_of s = record {
  text = s.current;
  utf16_units = length s.current;
  grapheme_count = s.current_count;
}

abbrev flushed : Pieces → Pieces
flushed s = record { chunks = s.chunks ++ (chunk_of s ∷ []); current = []; current_count = 0 }

flush_cases :
    (s : Pieces)
    → (0 < length s.current) × (flush s ≡ flushed s) ⊎ (length s.current ≡ 0) × (flush s ≡ s)
unfolding flush
flush_cases s = elim (Bool-cases (leb (length s.current) 0)) [
  | inl none_left ↦ inr (ground (arith, none_left), ground (arith, none_left))
  | inr some_left ↦ inl (ground (arith, some_left), ground (arith, some_left))
]

flush_empties : (s : Pieces) → length (flush s).current ≡ 0
flush_empties s = elim (flush_cases s) [
  | inl (some_left, same) ↦ ap (λ (p : Pieces). length p.current) same
  | inr (none_left, same) ↦ ap (λ (p : Pieces). length p.current) same ∙ none_left
]

module _ (limit : ℕ) where
  has_room :
      (s : Pieces) (g : Utf16)
      → ltb 0 (length s.current) && ltb limit (length s.current + length g) ≡ false
      → (length s.current ≡ 0) ⊎ (length s.current + length g ≤ limit)
  has_room s g h = elim (Bool-cases (ltb 0 (length s.current))) [
    | inl some_left ↦ inr (ground (arith, some_left))
    | inr none_left ↦ inl (ground (arith, none_left))
  ]

  flushed-HasCut :
      (text : Utf16) (n : ℕ) (s : Pieces)
      → 0 < length s.current
      → HasCut limit text n s
      → HasCut limit text n (flushed s)
  flushed-HasCut text n s some_left h = record {
    joined =
        ++_nil (join (map text_of (s.chunks ++ (chunk_of s ∷ []))))
        ∙ join-append s.chunks (chunk_of s)
        ∙ h.joined;
    counted = omega (arith, counts-append s.chunks (chunk_of s), h.counted);
    chunked =
        All-append (IsChunk limit) s.chunks (chunk_of s ∷ []) h.chunked
          (record { units = refl; nonempty = some_left; within = h.within }, tt);
    started = λ e. refl;
    within = inl (omega arith);
  }

  flush-HasCut :
      (text : Utf16) (n : ℕ) (s : Pieces) → HasCut limit text n s → HasCut limit text n (flush s)
  flush-HasCut text n s h = elim (flush_cases s) [
    | inl (some_left, same) ↦
        subst (HasCut limit text n) (sym same) (flushed-HasCut text n s some_left h)
    | inr (none_left, same) ↦ subst (HasCut limit text n) (sym same) h
  ]

  -- A grapheme is appended to a piece that has room for it, or that is empty.
  append_HasCut :
      (text : Utf16) (n : ℕ) (s : Pieces) (g : Utf16)
      → 0 < length g
      → (length s.current ≡ 0) ⊎ (length s.current + length g ≤ limit)
      → HasCut limit text n s
      → HasCut limit (text ++ g) (n + 1) (append_grapheme s g)
  unfolding append_grapheme
  append_HasCut text n s g some_units room h = record {
    joined = sym (++_assoc (join (map text_of s.chunks)) s.current g) ∙ ap (λ l. l ++ g) h.joined;
    counted = omega (arith, h.counted);
    chunked = h.chunked;
    started = λ e. absurd (omega (arith, e, some_units, length-++ s.current g));
    within = elim room [
      | inl empty ↦ inr (omega (arith, h.started empty))
      | inr fits ↦ inl (omega (arith, fits, length-++ s.current g))
    ];
  }

  next_HasCut :
      (text : Utf16) (n : ℕ) (s : Pieces) (g : Utf16)
      → 0 < length g
      → HasCut limit text n s
      → HasCut limit (text ++ g) (n + 1) (
          append_grapheme
            (if ltb 0 (length s.current) && ltb limit (length s.current + length g)
              then flush s
              else s)
            g)
  next_HasCut text n s g some_units h =
      elim (Bool-cases (ltb 0 (length s.current) && ltb limit (length s.current + length g))) [
        | inl full ↦ rw full (
            append_HasCut text n (flush s) g some_units (inl (flush_empties s))
              (flush-HasCut text n s h))
        | inr room ↦ rw room (append_HasCut text n s g some_units (has_room s g room) h)
      ]

  cut-HasCut :
      (text : Utf16) (n : ℕ) (s : Pieces) (graphemes : List Utf16)
      → All (λ g. 0 < length g) graphemes
      → HasCut limit text n s
      → HasCut limit (text ++ join graphemes) (n + length graphemes) (cut limit s graphemes)
  unfolding cut
  cut-HasCut text n s [] all h =
      subst₂ (λ t m. HasCut limit t m s) (sym (++_nil text)) (omega arith) h
  cut-HasCut text n s (g ∷ graphemes) all h =
      let next =
        append_grapheme
          (if ltb 0 (length s.current) && ltb limit (length s.current + length g)
            then flush s
            else s)
          g in
      subst₂ (λ t m. HasCut limit t m (cut limit next graphemes)) (++_assoc text g (join graphemes))
        (omega arith)
        (cut-HasCut (text ++ g) (n + 1) next graphemes all.1 (next_HasCut text n s g all.0 h))

  pub chunks_HasCut :
      (graphemes : List Utf16)
      → All (λ g. 0 < length g) graphemes
      → (join (map text_of (chunks_of limit graphemes)) ≡ join graphemes)
        × All (IsChunk limit) (chunks_of limit graphemes)
        × (counts (chunks_of limit graphemes) ≡ length graphemes)
  unfolding chunks_of
  chunks_HasCut graphemes all =
      let empty : Pieces = record { chunks = []; current = []; current_count = 0 } in
      let start : HasCut limit [] 0 empty = record {
        joined = refl;
        counted = omega arith;
        chunked = tt;
        started = λ e. refl;
        within = inl (omega arith);
      } in
      let s = cut limit empty graphemes in
      let over =
        flush-HasCut (join graphemes) (0 + length graphemes) s
          (cut-HasCut [] 0 empty graphemes all start) in
      let rest = flush_empties s in
      (
        sym (++_nil (join (map text_of (flush s).chunks)))
            ∙ ap (λ l. join (map text_of (flush s).chunks) ++ l)
                (sym (empty_of_length (flush s).current rest))
            ∙ over.joined,
        over.chunked,
        omega (arith, over.counted, over.started rest),
      )
