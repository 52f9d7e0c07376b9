-- ===== src/Runtime/RunState/Restart.antt =====
-- What a restart finds in the state file.
use cluster_manager_das.Prelude.{
  String, true, false, ◌==◌, List, [], ◌∷◌, ◌++◌, Option, some, ◌≡◌, refl, map, eq_refl, eq_iff,
  arith, Bool-cases, inl, inr,
}
use cluster_manager_das.Prelude.Names.{contains}
use cluster_manager_das.Prelude.Names.Laws.{contains-append}
use cluster_manager_das.Runtime.RunState.{
  SavedState, starting, hang, loss_divergence, recovering, fault, fault_recover, complete, RunState,
  init, pending, running, name, state_named, Setting, word, amount, null, setting_eq, Config,
  get_setting, differs_on, has_diff, state_of_name, get_state, set_state,
}

setting_eq_refl : (s : Setting) → setting_eq s s ≡ true
unfolding setting_eq
setting_eq_refl (amount n) = ground arith
setting_eq_refl (word s) = eq_refl s
setting_eq_refl null = refl

setting_eq_sound : (s t : Setting) → setting_eq s t ≡ true → s ≡ t
unfolding setting_eq
setting_eq_sound (amount m) (amount n) h = ground arith
setting_eq_sound (word s) (word t) h = ground (arith, eq_iff s t)
setting_eq_sound null null h = refl
setting_eq_sound (amount m) (word t) h = cc
setting_eq_sound (amount m) null h = cc
setting_eq_sound (word s) (amount n) h = cc
setting_eq_sound (word s) null h = cc
setting_eq_sound null (amount n) h = cc
setting_eq_sound null (word t) h = cc

state_named-name : (s : RunState) → state_named (name s) ≡ some s
unfolding state_named name
state_named-name init = refl
state_named-name starting = refl
state_named-name pending = refl
state_named-name running = refl
state_named-name hang = refl
state_named-name loss_divergence = refl
state_named-name recovering = refl
state_named-name fault = refl
state_named-name fault_recover = refl
state_named-name complete = refl

-- Two configurations with the same setting, or none, at every key.
abbrev pub Agree : Config → Config → Type 0
Agree saved current = (key : String) → get_setting key saved ≡ get_setting key current

keys_of : Config → List String
keys_of config = map (λ e. e.0) config

get_setting_absent :
    (key : String) (config : Config)
    → contains key (keys_of config) ≡ false
    → get_setting key config ≡ word "N/A"
unfolding get_setting keys_of contains
get_setting_absent key [] h = refl
get_setting_absent key ((k, v) ∷ rest) h = ground (arith, get_setting_absent key rest)

differs_on_sound :
    (keys : List String) (saved current : Config)
    → differs_on keys saved current ≡ false
    → (key : String) → contains key keys ≡ true
    → get_setting key saved ≡ get_setting key current
unfolding differs_on contains
differs_on_sound [] saved current h key m = cc
differs_on_sound (k ∷ keys) saved current h key m = elim (Bool-cases (k == key)) [
  | inl e ↦
      rw (← (eq_iff k key).0 e)
        (setting_eq_sound (get_setting k saved) (get_setting k current) (ground arith))
  | inr e ↦ differs_on_sound keys saved current (ground arith) key (ground arith)
]

differs_on-Agree :
    (keys : List String) (saved current : Config)
    → Agree saved current
    → differs_on keys saved current ≡ false
unfolding differs_on
differs_on-Agree [] saved current h = refl
differs_on-Agree (k ∷ keys) saved current h =
    rw (h k, setting_eq_refl (get_setting k current), differs_on-Agree keys saved current h) refl

has_diff-Agree : (saved current : Config) → has_diff saved current ≡ false → Agree saved current
unfolding has_diff keys_of
has_diff-Agree saved current h key = ground (
  arith,
  differs_on_sound (keys_of saved ++ keys_of current) saved current h key,
  contains-append key (keys_of saved) (keys_of current),
  get_setting_absent key saved,
  get_setting_absent key current,
)

-- What a job that was in a state continues with: one that ran is pending, until its log shows that
-- it still runs.
abbrev pub resumed : RunState → RunState
resumed running = pending
resumed s = s

state_of_name-resumed : (s : RunState) → state_of_name (some s) ≡ resumed s
unfolding state_of_name
state_of_name-resumed init = refl
state_of_name-resumed starting = refl
state_of_name-resumed pending = refl
state_of_name-resumed running = refl
state_of_name-resumed hang = refl
state_of_name-resumed loss_divergence = refl
state_of_name-resumed recovering = refl
state_of_name-resumed fault = refl
state_of_name-resumed fault_recover = refl
state_of_name-resumed complete = refl

-- A state that was written, to a file that can be written, is found again at a restart where the
-- configuration is the same at every key, but for a running job, which comes back as pending; where
-- some key has another setting the job starts anew.
pub get_state-set_state :
    (s : RunState) (saved current : Config) (old : Option SavedState)
    → (Agree saved current → get_state (set_state true s saved old) current ≡ resumed s)
      × (¬ Agree saved current → get_state (set_state true s saved old) current ≡ init)
unfolding get_state set_state has_diff
get_state-set_state s saved current old = (
  λ a. rw (differs_on-Agree _ saved current a, state_named-name s) (state_of_name-resumed s),
  λ n. elim (Bool-cases (has_diff saved current)) [
    | inl e ↦ rw e refl
    | inr e ↦ elim (n (has_diff-Agree saved current e)) [ ]
  ],
)
