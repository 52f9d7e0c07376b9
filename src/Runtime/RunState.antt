-- ===== src/Runtime/RunState.antt =====
-- run_state_manager.py: the state of the job, written to running_state.json beside the configuration
-- of the model, and read back when the program starts again.
pub mod Restart
use cluster_manager_das.Prelude.{
  ℕ, String, Bool, true, false, ◌&&◌, ◌||◌, not, ◌==◌, List, [], ◌∷◌, ◌++◌, Option, none, some,
  nat_eq, map, if◌then◌else◌,
}

-- `RunState`
pub data RunState : Type 0 where
  init starting pending running hang loss_divergence recovering fault fault_recover : RunState
  complete : RunState

-- `new_state.name`
unfoldable pub name : RunState → String
name init = "INIT"
name starting = "STARTING"
name pending = "PENDING"
name running = "RUNNING"
name hang = "HANG"
name loss_divergence = "LOSS_DIVERGENCE"
name recovering = "RECOVERING"
name fault = "FAULT"
name fault_recover = "FAULT_RECOVER"
name complete = "COMPLETE"

abbrev all_states : List RunState
all_states =
    init ∷ starting ∷ pending ∷ running ∷ hang ∷ loss_divergence ∷ recovering ∷ fault
    ∷ fault_recover ∷ complete ∷ []

unfoldable pub find_state : String → List RunState → Option RunState
unfolding name
find_state text [] = none
find_state text (s ∷ rest) =
    let found = find_state text rest in if text == name s then some s else found

-- `RunState[text]`; `none` stands for `KeyError`.
unfoldable pub state_named : String → Option RunState
unfolding find_state
state_named text = find_state text all_states

-- A value of the configuration.
pub data Setting : Type 0 where
  amount : ℕ → Setting
  word : String → Setting
  null : Setting

unfoldable pub setting_eq : Setting → Setting → Bool
setting_eq (amount m) (amount n) = nat_eq m n
setting_eq (word s) (word t) = s == t
setting_eq null null = true
setting_eq _ _ = false

-- A dictionary of settings; the first entry with a key counts.
abbrev pub Config : Type 0
Config = List (String × Setting)

-- `config.get(key, "N/A")`
unfoldable pub get_setting : String → Config → Setting
get_setting key [] = word "N/A"
get_setting key ((k, v) ∷ rest) = let found = get_setting key rest in if k == key then v else found

-- Whether some key of the list has different settings.
unfoldable pub differs_on : List String → Config → Config → Bool
unfolding get_setting setting_eq
differs_on [] saved current = false
differs_on (key ∷ keys) saved current =
    not (setting_eq (get_setting key saved) (get_setting key current))
    || differs_on keys saved current

-- `compare_runtime_args` with no ignored keys, as far as `get_state` uses it: whether the dictionary
-- of differences is not empty.
unfoldable pub has_diff : Config → Config → Bool
unfolding differs_on
has_diff saved current = differs_on (map (λ e. e.0) saved ++ map (λ e. e.0) current) saved current

-- running_state.json, as far as it is read back.
pub record SavedState : Type 0 where
  pub megatron_config : Config
  pub run_state : String

-- `get_state`, where `none` stands for a file that is missing or cannot be read.
unfoldable pub state_of_name : Option RunState → RunState
state_of_name none = init
state_of_name (some running) = pending
state_of_name (some s) = s

unfoldable pub get_state : Option SavedState → Config → RunState
unfolding has_diff state_named state_of_name
get_state none current = init
get_state (some saved) current =
    if has_diff saved.megatron_config current
    then init
    else state_of_name (state_named saved.run_state)

-- `set_state`: what running_state.json holds afterwards; a file that cannot be written stays.
unfoldable pub set_state : Bool → RunState → Config → Option SavedState → Option SavedState
unfolding name
set_state writable new_state config old =
    if writable then some (record { megatron_config = config; run_state = name new_state }) else old
