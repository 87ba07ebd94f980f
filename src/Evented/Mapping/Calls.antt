-- ===== src/Evented/Mapping/Calls.antt =====
-- The calls of the mutating methods that `EventedDict` defines, with texts for keys, and a program as a
-- sequence of them. What a call raises is caught, and the program goes on. The operator `|=`, which the class
-- inherits from dict, is not among the calls: it checks no lock and publishes no patch.
use rekuest_next.Prelude.{String, Option, List, [], ◌∷◌}
use rekuest_next.Evented.{◌>>=◌, pure, Env, Item}
use rekuest_next.Evented.Mapping.{
  EventedDict, M, set_item, del_item, pop, popitem, clear, setdefault, update,
}

pub data Call {ℓ} (A : Type ℓ) : Type ℓ where
  sets : String → A → Call A
  deletes : String → Call A
  pops : String → Option A → Call A
  pops_item : Call A
  clears : Call A
  sets_default : String → A → Call A
  updates : List (String × A) → List (String × A) → Call A

module _ {ℓ} {A : Type ℓ} (env : Env) ⦃item : Item A⦄ where
  unfoldable pub perform : Call A → M A (Unit {0})
  perform (Call.sets k v) = set_item env k v
  perform (Call.deletes k) = del_item env k
  perform (Call.pops k default) = pop env k default >>= λ _. pure tt
  perform Call.pops_item = popitem env >>= λ _. pure tt
  perform Call.clears = clear env
  perform (Call.sets_default k v) = setdefault env k v >>= λ _. pure tt
  perform (Call.updates other kwargs) = update env other kwargs

  unfoldable pub run : List (Call A) → EventedDict A → EventedDict A
  run [] s = s
  run (c ∷ cs) s = run cs (perform c s).1
