-- ===== src/Flags.antt =====
-- What the program uses of github.com/spf13/pflag to register flags: a flag is bound to a field of
-- the options, and its registration assigns its default to the field.
use unsealer.Prelude.{Bool, true, false, not, ◌&&◌, ◌||◌, List, [], ◌∷◌}
use unsealer.Prelude.Int.{ℤ}
use unsealer.Text.{Text, text_eq}

pub data FlagValue : Type 0 where
  string_value : Text → FlagValue
  bool_value : Bool → FlagValue
  int_value : ℤ → FlagValue

pub record Flag (O : Type 0) : Type 0 where
  pub name : Text
  pub default : FlagValue
  pub store : FlagValue → O → O

module _ {O : Type 0} where
  abbrev store_string : (Text → O → O) → FlagValue → O → O
  store_string set (string_value s) o = set s o
  store_string set v o = o

  abbrev store_bool : (Bool → O → O) → FlagValue → O → O
  store_bool set (bool_value b) o = set b o
  store_bool set v o = o

  abbrev store_int : (ℤ → O → O) → FlagValue → O → O
  store_int set (int_value i) o = set i o
  store_int set v o = o

  abbrev pub string_var : (Text → O → O) → Text → Text → Flag O
  string_var set name default = record {
    name = name;
    default = string_value default;
    store = store_string set;
  }

  abbrev pub bool_var : (Bool → O → O) → Text → Bool → Flag O
  bool_var set name default = record {
    name = name;
    default = bool_value default;
    store = store_bool set;
  }

  abbrev pub int_var : (ℤ → O → O) → Text → ℤ → Flag O
  int_var set name default = record {
    name = name;
    default = int_value default;
    store = store_int set;
  }

  abbrev pub register : List (Flag O) → O → O
  register [] o = o
  register (f ∷ flags) o = register flags (f.store f.default o)

  abbrev pub has_name : Text → List (Flag O) → Bool
  has_name n [] = false
  has_name n (f ∷ flags) = text_eq n f.name || has_name n flags

  -- pflag panics at a name that is registered already.
  abbrev pub all_distinct : List (Flag O) → Bool
  all_distinct [] = true
  all_distinct (f ∷ flags) = not (has_name f.name flags) && all_distinct flags

-- The flags of options that are a field of others.
abbrev pub within : {O W : Type 0} → (W → O) → (O → W → W) → List (Flag O) → List (Flag W)
within get put [] = []
within get put (f ∷ flags) =
    record { name = f.name; default = f.default; store = λ v w. put (f.store v (get w)) w }
    ∷ within get put flags
