-- ===== src/Deploy/Args.antt =====
-- scripts/bridge/lib/rubicon-v13.ts: `parseArgs`, the command line of the deploy.
use Prim.Native.Char.{code}
use Prim.Native.String.{[], ◌∷◌}
use rome_solidity.Prelude.{
  ℕ, zero, suc, ltb, ◌+◌, String, Bool, true, false, not, ◌&&◌, Option, none, some, List, [], ◌∷◌,
  ◌==◌, nat_eq, string_eq, if◌then◌else◌, contains, lookup, insert, is_some, Result, ok, err, ◌>>=◌,
  ◌>>◌, throw_if,
}
use rome_solidity.Prelude.Text.{starts_with, every_char, is_hex_digit}
use rome_solidity.Deploy.{Viem, rubicon_network, mainnet_flag_name, owner_differs_flag}

pub data ArgError : Type 0 where
  needs_value : String → ArgError
  unknown_argument : String → ArgError
  given_twice : String → ArgError
  required : String → ArgError
  bad_digest : ArgError
  go_together : ArgError
  bad_commit : String → ArgError
  bad_address : String → ArgError
  bad_tx : String → ArgError
  different_modes : ArgError
  mainnet_needs_flag : ArgError

pub record Existing : Type 0 where
  pub address : String
  pub tx_hash : String
  pub source_commit : String

pub record DeployOptions : Type 0 where
  pub network : String
  pub owner : String
  pub guardian : String
  pub dry_run : Bool
  pub mainnet_flag : Bool
  pub deploy_digest : Option String
  pub verify_existing : Option Existing
  pub owner_differs_from_v12 : Bool

-- What `seen` holds for a name: `true`, or its value
pub data Given : Type 0 where
  flag : Given
  value : String → Given

abbrev pub value_options : List String
value_options =
    "--network" ∷ "--owner" ∷ "--guardian" ∷ "--deploy" ∷ "--verify-existing" ∷ "--deploy-tx"
    ∷ "--source-commit" ∷ []

abbrev pub flag_options : List String
flag_options = "--dry-run" ∷ mainnet_flag_name ∷ owner_differs_flag ∷ []

-- The text before the first `=` and the text after it
unfoldable pub cut_at_equals : String → Option (String × String)
cut_at_equals [] = none
cut_at_equals (c ∷ s) =
    let rest = cut_at_equals s in
    if code c == b'='
    then some ([], s)
    else elim rest [ none ↦ none | some (name, v) ↦ some (c ∷ name, v) ]

-- `--name=value`
unfoldable pub parse_joined :
    String → Option (String × String) → Result ArgError (String × Given × Bool)
parse_joined a none = err (unknown_argument a)
parse_joined a (some (name, v)) =
    if not (contains value_options name)
    then err (unknown_argument a)
    else if v == ""
    then err (needs_value name)
    else ok (name, value v, false)

-- One round of the loop over the arguments, at an argument and the one after it: the name, what is
-- recorded for it, and whether the next argument was taken.
unfoldable pub parse_arg : String → Option String → Result ArgError (String × Given × Bool)
unfolding parse_joined
parse_arg a next =
    if contains flag_options a
    then ok (a, flag, false)
    else if contains value_options a
    then elim next [
      | none ↦ err (needs_value a)
      | some v ↦ if starts_with v "--" then err (needs_value a) else ok (a, value v, true)
    ]
    else parse_joined a (cut_at_equals a)

-- `if (seen.has(name)) throw …; seen.set(name, value)`
unfoldable pub add_seen :
    String → Given → List (String × Given) → Result ArgError (List (String × Given))
add_seen name given seen =
    if is_some (lookup name seen) then err (given_twice name) else ok (insert name given seen)

unfoldable pub parse_all :
    List (String × Given) → List String → Result ArgError (List (String × Given))
parse_all seen [] = ok seen
parse_all seen (a ∷ []) = do (name, given, _) ← parse_arg a none; add_seen name given seen
parse_all seen (a ∷ next ∷ more) = do
  (name, given, taken) ← parse_arg a (some next)
  seen' ← add_seen name given seen
  let after = parse_all seen' more
  let along = parse_all seen' (next ∷ more)
  if taken then after else along

unfoldable pub opt : List (String × Given) → String → Option String
opt seen name = elim (lookup name seen) [ none ↦ none | some flag ↦ none | some (value v) ↦ some v ]

unfoldable pub need : List (String × Given) → String → Result ArgError String
need seen name = elim (opt seen name) [ none ↦ err (required name) | some v ↦ ok v ]

unfoldable pub has_length : ℕ → String → Bool
has_length zero [] = true
has_length (suc n) (c ∷ s) = has_length n s
has_length _ _ = false

-- /^[0-9a-fA-F]{n}$/ and /^0x[0-9a-fA-F]{n}$/
unfoldable pub is_hex_of_length : ℕ → String → Bool
unfolding has_length every_char
is_hex_of_length n s = has_length n s && every_char is_hex_digit s

unfoldable pub is_0x_hex : ℕ → String → Bool
unfolding is_hex_of_length
is_0x_hex n (a ∷ b ∷ s) = code a == b'0' && code b == b'x' && is_hex_of_length n s
is_0x_hex n _ = false

unfoldable pub all_given : Option String → Option String → Option String → Option Existing
all_given (some a) (some t) (some c) = some (record { address = a; tx_hash = t; source_commit = c })
all_given _ _ _ = none

-- `x !== undefined && !test(x)`
unfoldable pub fails : Option String → (String → Bool) → Bool
fails none test = false
fails (some v) test = not (test v)

abbrev pub text_of : Option String → String
text_of none = ""
text_of (some v) = v

-- `new Set([a, b, c]).size > 1`
unfoldable pub differ : Bool → Bool → Bool → Bool
differ true true true = false
differ false false false = false
differ _ _ _ = true

abbrev pub count : Bool → ℕ
count true = 1
count false = 0

module _ (viem : Viem) where
  -- The tests on the parsed options, after the loop
  unfoldable pub check_options :
      Option String → Option String → Option String → DeployOptions → Result ArgError (Unit {0})
  check_options v_addr v_tx v_commit o = do
    throw_if (fails o.deploy_digest (is_0x_hex 16)) bad_digest
    throw_if (differ (is_some v_addr) (is_some v_tx) (is_some v_commit)) go_together
    throw_if (fails v_commit (is_hex_of_length 40)) (bad_commit (text_of v_commit))
    throw_if (fails v_addr viem.is_address) (bad_address (text_of v_addr))
    throw_if (fails v_tx (is_0x_hex 64)) (bad_tx (text_of v_tx))
    throw_if (ltb 1 (count o.dry_run + count (is_some o.deploy_digest) + count (is_some v_addr)))
        different_modes
    throw_if (o.network == rubicon_network && not o.mainnet_flag) mainnet_needs_flag

  unfoldable pub read_options : List (String × Given) → Result ArgError DeployOptions
  read_options seen = do
    network ← need seen "--network"
    owner ← need seen "--owner"
    guardian ← need seen "--guardian"
    let v_addr = opt seen "--verify-existing"
    let v_tx = opt seen "--deploy-tx"
    let v_commit = opt seen "--source-commit"
    let options : DeployOptions = record {
      network = network;
      owner = owner;
      guardian = guardian;
      dry_run = is_some (lookup "--dry-run" seen);
      mainnet_flag = is_some (lookup mainnet_flag_name seen);
      deploy_digest = opt seen "--deploy";
      verify_existing = all_given v_addr v_tx v_commit;
      owner_differs_from_v12 = is_some (lookup owner_differs_flag seen);
    }
    check_options v_addr v_tx v_commit options
    ok options

  unfoldable pub parse_args : List String → Result ArgError DeployOptions
  parse_args argv = do seen ← parse_all [] argv; read_options seen
