-- ===== src/Ownership/Outside.antt =====
-- internal/ownership: what the package calls outside of it. `Texts` holds functions of Go's library on
-- texts and of the YAML library; `Files` the context, the file system and the budget of internal/source.
-- Calls whose answer depends on the calls before them pass on a state of type `S`.
use telemetry_change_guard.Common.{ℕ, String, Bool, Option, List, Result}
use telemetry_change_guard.Manifest.{Decoding}
use telemetry_change_guard.Ownership.Patterns.{Part}
use telemetry_change_guard.Ownership.Metadata.{MetadataDocument}

pub record Texts : Type 0 where
  -- `strings.TrimSpace`, `strings.ToLower`, `%q`, `%d`, `strings.Fields`
  pub trim : String → String
  pub lower : String → String
  pub quote : String → String
  pub show : ℕ → String
  pub fields : String → List String
  -- The lines of bufio.Scanner and its error.
  pub scan : String → List String × Option String
  -- The expressions githubOwnerPattern and emailOwnerPattern, and a compiled pattern.
  pub is_github_owner : String → Bool
  pub is_email_owner : String → Bool
  pub run : List Part → List ℕ → Bool
  -- The YAML decoder with the text of its error.
  pub decode : String → Decoding MetadataDocument × String
  -- `json.Marshal` and `json.Unmarshal` of a list of texts, `strconv.ParseBool`
  pub encode_names : List String → String
  pub decode_names : String → Option (List String)
  pub parse_bool : String → Option Bool

pub data Stat : Type 0 where
  missing : Stat
  unreadable : String → Stat
  directory regular : Stat

-- What is read from an open file, and the error of closing it.
pub record Opened : Type 0 where
  pub contents : Result String String
  pub close_error : Option String

pub record Files (S : Type 0) : Type 0 where
  -- `ctx.Err`
  pub poll : S → S × Option String
  -- `filepath.Abs`, `Clean`, `IsAbs`, `Rel`, `ToSlash`, `EvalSymlinks`, and Join after FromSlash
  pub absolute : String → Result String String
  pub clean : String → String
  pub is_absolute : String → Bool
  pub relative : String → String → Result String String
  pub to_slash : String → String
  pub eval_symlinks : String → Result String String
  pub joined : String → String → String
  pub stat : String → Stat
  -- Whether there is a budget. The calls below are the budget's if there is one, and else those of
  -- internal/source and os; `register` is a call of the budget only.
  pub budgeted : Bool
  pub expand : S → String → S × Result String (List String)
  pub read : S → String → S × Result String Opened
  pub register : S → String → S × Result String String
