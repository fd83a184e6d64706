-- ===== src/Diagnosis/ActionText.antt =====
-- `ValidateActionText` of internal/diagnosis/advice.go: a suggested action is a sentence, not a command.
pub mod Flags
pub mod Sentence
use svcdoctor.Base.{
  ℕ, Bool, true, false, not, ◌&&◌, ◌||◌, List, [], ◌∷◌, ◌++◌, map, any, ◌==◌, if◌then◌else◌,
}
use mathlib.Core.List.{reverse}
use svcdoctor.Base.Bytes.{Bytes, codes, eqb, member}
use svcdoctor.Base.Result.{Result, ok, err, ◌>>◌, reject}
use svcdoctor.Base.Runes.{decode, fields, before_space, lower, upper, starts_with, contains}
use svcdoctor.Base.Utf8.{trim_space}

-- The checks, `ErrInvalidValue` for the first two and `ErrUnsafeAdvice` for the others.
pub data ActionError : Type 0 where
  blank_action untrimmed_action shell_character flag command sql : ActionError

abbrev pub command_words : List Bytes
command_words =
    codes "apt"
    ∷ codes "aws"
    ∷ codes "brew"
    ∷ codes "cat"
    ∷ codes "chmod"
    ∷ codes "chown"
    ∷ codes "curl"
    ∷ codes "dig"
    ∷ codes "docker"
    ∷ codes "echo"
    ∷ codes "gcloud"
    ∷ codes "grep"
    ∷ codes "helm"
    ∷ codes "kubectl"
    ∷ codes "ln"
    ∷ codes "mv"
    ∷ codes "nc"
    ∷ codes "netstat"
    ∷ codes "nslookup"
    ∷ codes "openssl"
    ∷ codes "ping"
    ∷ codes "rm"
    ∷ codes "scp"
    ∷ codes "sed"
    ∷ codes "service"
    ∷ codes "sh"
    ∷ codes "ssh"
    ∷ codes "sudo"
    ∷ codes "systemctl"
    ∷ codes "tcpdump"
    ∷ codes "telnet"
    ∷ codes "terraform"
    ∷ codes "traceroute"
    ∷ codes "wget"
    ∷ []

abbrev pub sql_words : List Bytes
sql_words =
    codes "alter"
    ∷ codes "create"
    ∷ codes "delete"
    ∷ codes "drop"
    ∷ codes "grant"
    ∷ codes "insert"
    ∷ codes "revoke"
    ∷ codes "select"
    ∷ codes "truncate"
    ∷ codes "update"
    ∷ []

-- `shellMetacharacters`: | & < > $ ` \ and line feed, carriage return, tab.
abbrev pub shell_metacharacters : Bytes
shell_metacharacters = 0x7C ∷ 0x26 ∷ 0x3C ∷ 0x3E ∷ 0x24 ∷ 0x60 ∷ 0x5C ∷ 0x0A ∷ 0x0D ∷ 0x09 ∷ []

abbrev pub is_metacharacter : ℕ → Bool
is_metacharacter c = any (λ m. m == c) shell_metacharacters

-- A word with a single hyphen at its front.
abbrev pub is_flag : List ℕ → Bool
is_flag word = starts_with (codes "-") word && not (starts_with (codes "--") word)

-- The runes `.,:;"'()` that are trimmed from the first word.
abbrev pub is_mark : ℕ → Bool
is_mark r = any (λ m. m == r) (0x2E ∷ 0x2C ∷ 0x3A ∷ 0x3B ∷ 0x22 ∷ 0x27 ∷ 0x28 ∷ 0x29 ∷ [])

unfoldable pub drop_marks : List ℕ → List ℕ
drop_marks [] = []
drop_marks (r ∷ rs) = if is_mark r then drop_marks rs else r ∷ rs

abbrev pub trim_marks : List ℕ → List ℕ
trim_marks rs = reverse (drop_marks (reverse (drop_marks rs)))

-- `looksLikeSQL`
abbrev pub looks_like_sql : List ℕ → List ℕ → List ℕ → Bool
looks_like_sql first lowered action =
    if not (member lowered sql_words)
    then false
    else if eqb first (map upper first) && not (eqb first [])
    then true
    else eqb lowered (codes "select") && contains (codes " from ") (map lower action)

-- The checks on the first word.
abbrev pub check_first : List ℕ → List ℕ → Result ActionError (Unit {0})
check_first trimmed action = do
  let lowered = map lower trimmed
  reject (member lowered command_words) command
  reject (looks_like_sql trimmed lowered action) sql

unfoldable pub validate_action_text : Bytes → Result ActionError (Unit {0})
unfolding drop_marks
validate_action_text action = do
  let rs = decode 0 action
  reject (eqb (trim_space rs) []) blank_action
  reject (not (eqb (trim_space rs) rs)) untrimmed_action
  reject (any is_metacharacter action) shell_character
  reject (any is_flag (fields [] rs)) flag
  check_first (trim_marks (before_space rs)) rs
