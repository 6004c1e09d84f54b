-- ===== src/Net/Config.antt =====
-- The configuration of the two servers (sfu/src/appconfig.ts, observer/src/appconfig.ts): a setting comes
-- from the environment, or from the command line, or from a value that the caller gives, or from the
-- schema. What `yargs-parser` makes of the command line and the answer of `dns.lookup` are arguments.
use demo_app.Base.{
  String, ◌==◌, List, [], ◌∷◌, map, ◌≡◌, refl, Bool, true, false, not, ◌&&◌, Option, none, some,
  is_some, if◌then◌else◌, Option-cases, inl, inr,
}
use Prim.Native.String as Text
use demo_app.Protocol.Json.{Json}

pub record Entry : Type 0 where
  pub argv : String
  pub env : String
  pub doc : String
  pub default_value : Json

-- The variables of the environment, which are texts, and the options of the command line.
abbrev pub Environment : Type 0
Environment = String → Option String

abbrev pub Options : Type 0
Options = String → Option Json

-- `a ?? b`, which also passes over null.
unfoldable pub given_or : Option Json → Json → Json
given_or (some Json.null) b = b
given_or (some a) b = a
given_or none b = b

unfoldable pub load_config_entry : Environment → Options → Entry → Option Json → Json
unfolding given_or
load_config_entry env argv entry default = elim (env entry.env) [
  | some text ↦ Json.str text
  | none ↦ given_or (argv entry.argv) (given_or default entry.default_value)
]

-- A line of `help`.
unfoldable pub help_line : String → Entry → String
help_line key entry = Text.◌++◌ "\t--" (
    Text.◌++◌ key
      (Text.◌++◌ ": " (Text.◌++◌ entry.doc (Text.◌++◌ " (env: " (Text.◌++◌ entry.env ")")))))

-- `result.join('\n')`
unfoldable pub join_lines : List String → String
join_lines [] = ""
join_lines (t ∷ []) = t
join_lines (t ∷ (u ∷ ts)) = Text.◌++◌ t (Text.◌++◌ "\n" (join_lines (u ∷ ts)))

-- `help`, over the entries of the schema with their keys.
unfoldable pub help : List (String × Entry) → String
unfolding help_line join_lines
help schema = join_lines (map (λ (e : String × Entry). help_line e.0 e.1) schema)

-- The environment with a variable set.
abbrev pub override : String → String → Environment → Environment
override variable text env name = if name == variable then some text else env name

abbrev pub is_num : Json → Bool
is_num (Json.num literal) = true
is_num _ = false

-- Whether a setting of the command line is a number, or not there.
abbrev pub is_num_if_given : Option Json → Bool
is_num_if_given none = true
is_num_if_given (some Json.null) = true
is_num_if_given (some v) = is_num v

-- A setting with a number in the schema is a number exactly when the environment has no such variable and
-- the command line a number or nothing.
pub is_num-load_config_entry :
    (env : Environment) (argv : Options) (entry : Entry)
    → is_num entry.default_value ≡ true
    → is_num (load_config_entry env argv entry none)
      ≡ (not (is_some (env entry.env)) && is_num_if_given (argv entry.argv))
unfolding load_config_entry given_or
is_num-load_config_entry env argv entry d = elim (Option-cases (env entry.env)) [
  | inr (t, e) ↦ rw (load_config_entry, e) refl
  | inl e ↦ rw (load_config_entry, e) (go (argv entry.argv))
]
  where
    go :
        (o : Option Json)
        → is_num (given_or o (given_or none entry.default_value)) ≡ is_num_if_given o
    go none = d
    go (some Json.null) = d
    go (some (Json.bool b)) = refl
    go (some (Json.num l)) = refl
    go (some (Json.str t)) = refl
    go (some (Json.arr x)) = refl
    go (some (Json.obj x)) = refl
