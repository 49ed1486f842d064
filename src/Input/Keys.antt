-- ===== src/Input/Keys.antt =====
-- input/src/keys.ts: the key codes, the flags of the modifiers, and shortcuts.
use ai_macos.Base.{
  ℕ, String, ◌+◌, ◌/◌, ◌||◌, Option, none, some, includes, List, [], ◌∷◌, ◌==◌, nat_eq, string_eq,
  ltb, select, map, Result, ok, err, ◌>>=◌, or_throw, if◌then◌else◌,
}
use Prim.Native.Nat.{◌%◌}
use ai_macos.Base.Dict
use ai_macos.Base.Dict.{Dict}
use ai_macos.Input.{TextHost, PlanError, empty_shortcut, unsupported_modifier}

-- The members that every plain object inherits, so that a look-up in `KEY_CODES` and
-- `MODIFIER_FLAGS` finds them too.
abbrev pub object_members : List String
object_members =
    "constructor" ∷ "__defineGetter__" ∷ "__defineSetter__" ∷ "hasOwnProperty" ∷ "__lookupGetter__"
    ∷ "__lookupSetter__" ∷ "isPrototypeOf" ∷ "propertyIsEnumerable" ∷ "toString" ∷ "valueOf"
    ∷ "__proto__" ∷ "toLocaleString" ∷ []

-- `KEY_CODES`, its own entries
abbrev pub key_codes : Dict String ℕ
key_codes =
    ("a", 0)
    ∷ ("b", 11)
    ∷ ("c", 8)
    ∷ ("d", 2)
    ∷ ("e", 14)
    ∷ ("f", 3)
    ∷ ("g", 5)
    ∷ ("h", 4)
    ∷ ("i", 34)
    ∷ ("j", 38)
    ∷ ("k", 40)
    ∷ ("l", 37)
    ∷ ("m", 46)
    ∷ ("n", 45)
    ∷ ("o", 31)
    ∷ ("p", 35)
    ∷ ("q", 12)
    ∷ ("r", 15)
    ∷ ("s", 1)
    ∷ ("t", 17)
    ∷ ("u", 32)
    ∷ ("v", 9)
    ∷ ("w", 13)
    ∷ ("x", 7)
    ∷ ("y", 16)
    ∷ ("z", 6)
    ∷ ("0", 29)
    ∷ ("1", 18)
    ∷ ("2", 19)
    ∷ ("3", 20)
    ∷ ("4", 21)
    ∷ ("5", 23)
    ∷ ("6", 22)
    ∷ ("7", 26)
    ∷ ("8", 28)
    ∷ ("9", 25)
    ∷ ("enter", 36)
    ∷ ("return", 36)
    ∷ ("tab", 48)
    ∷ ("space", 49)
    ∷ ("delete", 51)
    ∷ ("backspace", 51)
    ∷ ("forwarddelete", 117)
    ∷ ("delete-forward", 117)
    ∷ ("escape", 53)
    ∷ ("esc", 53)
    ∷ ("capslock", 57)
    ∷ ("shift", 56)
    ∷ ("shift-right", 60)
    ∷ ("control", 59)
    ∷ ("control-right", 62)
    ∷ ("ctrl", 59)
    ∷ ("option", 58)
    ∷ ("option-right", 61)
    ∷ ("alt", 58)
    ∷ ("opt", 58)
    ∷ ("command", 55)
    ∷ ("command-right", 54)
    ∷ ("cmd", 55)
    ∷ ("meta", 55)
    ∷ ("fn", 63)
    ∷ ("function", 63)
    ∷ ("left", 123)
    ∷ ("right", 124)
    ∷ ("down", 125)
    ∷ ("up", 126)
    ∷ ("arrowleft", 123)
    ∷ ("arrowright", 124)
    ∷ ("arrowdown", 125)
    ∷ ("arrowup", 126)
    ∷ ("home", 115)
    ∷ ("end", 119)
    ∷ ("pageup", 116)
    ∷ ("pagedown", 121)
    ∷ ("f1", 122)
    ∷ ("f2", 120)
    ∷ ("f3", 99)
    ∷ ("f4", 118)
    ∷ ("f5", 96)
    ∷ ("f6", 97)
    ∷ ("f7", 98)
    ∷ ("f8", 100)
    ∷ ("f9", 101)
    ∷ ("f10", 109)
    ∷ ("f11", 103)
    ∷ ("f12", 111)
    ∷ ("f13", 105)
    ∷ ("f14", 107)
    ∷ ("f15", 113)
    ∷ ("f16", 106)
    ∷ ("f17", 64)
    ∷ ("f18", 79)
    ∷ ("f19", 80)
    ∷ ("f20", 90)
    ∷ ("-", 27)
    ∷ ("=", 24)
    ∷ ("[", 33)
    ∷ ("]", 30)
    ∷ ("\\", 42)
    ∷ (";", 41)
    ∷ ("'", 39)
    ∷ (",", 43)
    ∷ (".", 47)
    ∷ ("/", 44)
    ∷ ("`", 50)
    ∷ ("num0", 82)
    ∷ ("num1", 83)
    ∷ ("num2", 84)
    ∷ ("num3", 85)
    ∷ ("num4", 86)
    ∷ ("num5", 87)
    ∷ ("num6", 88)
    ∷ ("num7", 89)
    ∷ ("num8", 91)
    ∷ ("num9", 92)
    ∷ ("numdot", 65)
    ∷ ("numplus", 69)
    ∷ ("numminus", 78)
    ∷ ("numstar", 67)
    ∷ ("numslash", 75)
    ∷ ("numequals", 81)
    ∷ ("numenter", 76)
    ∷ ("numclear", 71)
    ∷ []

-- What `KEY_CODES[name]` is, if it is not undefined: a number, or an inherited member.
pub data KeyCode : Type 0 where
  code : ℕ → KeyCode
  inherited : KeyCode

unfoldable pub key_code_of : String → Option KeyCode
key_code_of name = elim (Dict.get name key_codes) [
  | some n ↦ some (code n)
  | none ↦ if includes object_members name then some inherited else none
]

-- `MODIFIER_FLAGS`, its own entries
abbrev pub modifier_table : Dict String ℕ
modifier_table =
    ("cmd", 1048576)
    ∷ ("command", 1048576)
    ∷ ("meta", 1048576)
    ∷ ("⌘", 1048576)
    ∷ ("shift", 131072)
    ∷ ("⇧", 131072)
    ∷ ("alt", 524288)
    ∷ ("option", 524288)
    ∷ ("opt", 524288)
    ∷ ("⌥", 524288)
    ∷ ("ctrl", 262144)
    ∷ ("control", 262144)
    ∷ ("⌃", 262144)
    ∷ ("fn", 8388608)
    ∷ []

-- `flags | flag` for a flag of one bit, or 0.
unfoldable pub or_flag : ℕ → ℕ → ℕ
or_flag flags flag = if flag == 0 || flags / flag % 2 == 1 then flags else flags + flag

-- The flag of one modifier in the table.
unfoldable pub modifier_flag : TextHost → String → Option ℕ
modifier_flag host name = Dict.get (host.lower_case name) modifier_table

-- `flags | flag` takes an inherited member for 0.
unfoldable pub flag_or_member : TextHost → String → Option ℕ
flag_or_member host name = elim (modifier_flag host name) [
  | some flag ↦ some flag
  | none ↦ if includes object_members (host.lower_case name) then some 0 else none
]

-- `modifierFlags`, from the flags so far.
unfoldable pub flags_onto : TextHost → ℕ → List String → Result PlanError ℕ
flags_onto host flags [] = ok flags
flags_onto host flags (name ∷ names) = do
  flag ← or_throw (flag_or_member host name) unsupported_modifier
  flags_onto host (or_flag flags flag) names

unfoldable pub modifier_flags : TextHost → List String → Result PlanError ℕ
modifier_flags host names = flags_onto host 0 names

-- `ParsedShortcut`
pub record ParsedShortcut : Type 0 where
  pub key : String
  pub modifiers : List String

-- The last part is the key, those before it are modifiers.
abbrev pub split_last : String → List String → ParsedShortcut
split_last p [] = record { key = p; modifiers = [] }
split_last p (q ∷ parts) =
    let rest = split_last q parts in record { key = rest.key; modifiers = p ∷ rest.modifiers }

abbrev shortcut_of : List String → Result PlanError ParsedShortcut
shortcut_of [] = err empty_shortcut
shortcut_of (p ∷ parts) = ok (split_last p parts)

-- `parseShortcut`
unfoldable pub parse_shortcut : TextHost → String → Result PlanError ParsedShortcut
parse_shortcut host text =
    shortcut_of (select (λ p. ltb 0 (host.units p)) (map host.trim (host.split_plus text)))
