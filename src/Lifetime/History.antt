-- ===== src/Lifetime/History.antt =====
-- Calls of `FileLifetimeStore` and their sequences (runtime/src/lifetime-state.ts).
use ai_macos.Base.{
  String, ◌<◌, ◌≡◌, refl, ap, ◌∙◌, ◌⊎◌, inl, inr, true, false, some, List, [], ◌∷◌, arith, ◌==◌,
  string_eq, nat_eq, ok, Bool-cases, eq_of_==,
}
use ai_macos.Base.Dict
use ai_macos.Base.Dict.{get-set}
use ai_macos.Lifetime.{LifetimeRecord, LifetimeState}
use ai_macos.Lifetime.Persist.{
  LifetimeHost, LifetimeStore, Envelope, new_envelope, persist, load_all,
}
use ai_macos.Lifetime.Moves.{Lives, Lives-refl, Lives-trans, assert_transition-Succeeds}
use ai_macos.Lifetime.Writes.{path_of, persist-IsPersisted}
use ai_macos.Lifetime.Readable.{IsSound, IsPersisted-IsSound}

module _ (host : LifetimeHost) where
  -- The directories that calls of `persist` lead to.
  pub data Calls (start : LifetimeStore) : LifetimeStore → Type 0 where
    none_yet : Calls start start
    persisted :
        {before after : LifetimeStore} {answer : LifetimeRecord} (r : LifetimeRecord)
        → Calls start before
        → persist host before r ≡ ok (answer, after)
        → Calls start after

  -- The path has had the file before, between or after these calls.
  abbrev pub Had : {start after : LifetimeStore} → Calls start after → String → Envelope → Type 0
  Had {start} none_yet path env = Dict.get path start ≡ some env
  Had {start} {after} (persisted r earlier h) path env =
      (Dict.get path after ≡ some env) ⊎ Had earlier path env

  -- The life of the first record has ended in these calls: the path has had a released record of
  -- it, of a lower revision than the present one.
  pub record Ended {start after : LifetimeStore} (calls : Calls start after) (path : String)
      (first now : LifetimeRecord) : Type 0 where
    pub last : Envelope
    pub had : Had calls path last
    pub same : Lives first last.content
    pub over : last.content.state ≡ LifetimeState.released
    pub revision : last.content.revision < now.revision

  -- What the path has of the first record after these calls.
  record Kept {start after : LifetimeStore} (calls : Calls start after) (path : String)
      (first : LifetimeRecord) : Type 0 where
    new : Envelope
    there : Dict.get path after ≡ some new
    up : (first.revision < new.content.revision) ⊎ (new.content ≡ first)
    life : Lives first new.content ⊎ Ended calls path first new.content

  Had-last :
      {start after : LifetimeStore} (calls : Calls start after) (path : String) (env : Envelope)
      → Dict.get path after ≡ some env
      → Had calls path env
  Had-last none_yet path env there = there
  Had-last (persisted r earlier h) path env there = inl there

  rises :
      (first mid now : LifetimeRecord)
      → (first.revision < mid.revision) ⊎ (mid ≡ first)
      → mid.revision < now.revision
      → first.revision < now.revision
  rises first mid now (inl up) step = omega (arith, up, step)
  rises first mid now (inr same) step =
      omega (arith, step, ap (λ (r : LifetimeRecord). r.revision) same)

  module _ {start before after : LifetimeStore} {answer : LifetimeRecord} (r : LifetimeRecord)
      (earlier : Calls start before) (h : persist host before r ≡ ok (answer, after))
      (path : String) (first : LifetimeRecord) where
    -- The next call of `persist` has written another path.
    spared :
        Kept earlier path first
        → (path_of host r == path) ≡ false
        → Kept (persisted r earlier h) path first
    spared kept other = record {
      new = kept.new;
      there =
          rw (persist-IsPersisted host before r h).stored
            (get-set (path_of host r) path (new_envelope host r) before ∙ rw other kept.there);
      up = kept.up;
      life = elim kept.life [
        | inl lives ↦ inl lives
        | inr ended ↦ inr (record {
          last = ended.last;
          had = inr ended.had;
          same = ended.same;
          over = ended.over;
          revision = ended.revision;
        })
      ];
    }

    -- It has written this one.
    followed :
        Kept earlier path first
        → (path_of host r == path) ≡ true
        → Kept (persisted r earlier h) path first
    unfolding new_envelope
    followed kept same =
        let did = persist-IsPersisted host before r h in
        let step = assert_transition-Succeeds kept.new.content r (
          did.follows kept.new
            (ap (λ p. Dict.get p before) (eq_of_== (path_of host r) path same) ∙ kept.there)) in
        record {
          new = new_envelope host r;
          there =
              rw did.stored
                (get-set (path_of host r) path (new_envelope host r) before ∙ rw same refl);
          up = inl (rises first kept.new.content r kept.up step.revision);
          life = elim kept.life [
            | inr ended ↦ inr (record {
              last = ended.last;
              had = inr ended.had;
              same = ended.same;
              over = ended.over;
              revision = omega (arith, ended.revision, step.revision);
            })
            | inl lives ↦ elim step.life [
              | inl over ↦ inr (record {
                last = kept.new;
                had = inr (Had-last earlier path kept.new kept.there);
                same = lives;
                over = over;
                revision = step.revision;
              })
              | inr lived ↦ inl (Lives-trans lives lived)
            ]
          ];
        }

  Calls-Kept :
      {start after : LifetimeStore} (calls : Calls start after) (path : String) (old : Envelope)
      → Dict.get path start ≡ some old
      → Kept calls path old.content
  Calls-Kept none_yet path old found = record {
    new = old;
    there = found;
    up = inr refl;
    life = inl (Lives-refl old.content);
  }
  Calls-Kept (persisted r earlier h) path old found =
      let kept = Calls-Kept earlier path old found in
      elim (Bool-cases (path_of host r == path)) [
        | inl same ↦ followed r earlier h path old.content kept same
        | inr other ↦ spared r earlier h path old.content kept other
      ]

  -- Whatever calls of `persist` return, a path that has a record keeps one: it is the same record or
  -- one of a higher revision, and it is of the same life (binding, owner, configuration, key,
  -- lineage, first operation and target, with a state that has moved along the table) unless the
  -- path has had, in these calls, a released record of that life, of a lower revision.
  pub lifetimes_keep :
      {start after : LifetimeStore} (path : String) (old : Envelope) (calls : Calls start after)
      → Dict.get path start ≡ some old
      → (new : Envelope) × (Dict.get path after ≡ some new)
        × ((old.content.revision < new.content.revision) ⊎ (new.content ≡ old.content))
        × (Lives old.content new.content ⊎ Ended calls path old.content new.content)
  lifetimes_keep path old calls found =
      let kept = Calls-Kept calls path old found in (kept.new, kept.there, kept.up, kept.life)

  Calls-IsSound :
      {start after : LifetimeStore} → Calls start after → IsSound host start → IsSound host after
  Calls-IsSound none_yet sound = sound
  Calls-IsSound {start} {after} (persisted {before} r earlier h) sound =
      IsPersisted-IsSound host before r after (persist-IsPersisted host before r h)
        (Calls-IsSound earlier sound)

  -- The records under the paths of a listing.
  pub data Listed (store : LifetimeStore) : List String → List LifetimeRecord → Type 0 where
    nothing : Listed store [] []
    file :
        {path : String} {env : Envelope} {paths : List String} {records : List LifetimeRecord}
        → Dict.get path store ≡ some env
        → Listed store paths records
        → Listed store (path ∷ paths) (env.content ∷ records)

  load-Listed :
      (store : LifetimeStore) {paths : List String} {records : List LifetimeRecord}
      → IsSound host store
      → Listed store paths records
      → load_all host store paths ≡ ok records
  unfolding load_all
  load-Listed store sound nothing = refl
  load-Listed store sound (file {path} {env} {paths} {records} found rest) =
      let here = sound.readable path env found in
      let later = load-Listed store {paths = paths} {records = records} sound rest in ground arith

  IsSound-empty : IsSound host []
  unfolding Dict.get
  IsSound-empty = record { readable = λ path env found. cc }

  -- After any calls of `persist` that return, from an empty directory on, `loadAll` on a listing of
  -- paths that have files does not throw and returns their records in the order of the listing.
  pub load_all-persist :
      {after : LifetimeStore} {paths : List String} {records : List LifetimeRecord}
      → Calls [] after
      → Listed after paths records
      → load_all host after paths ≡ ok records
  load_all-persist {after} {paths} {records} calls listed =
      load-Listed after {paths = paths} {records = records} (Calls-IsSound calls IsSound-empty)
        listed
