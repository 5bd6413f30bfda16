-- ===== src/Tests/Store.antt =====
-- A key store in memory, which meets the contract of a key store and never fails.
use unsealer.Prelude.{
  ◌≡◌, refl, Bool, true, ◌&&◌, Option, none, some, [], ◌∷◌, arith, ltb, if◌then◌else◌,
}
use unsealer.Text.{Text, IsBytes, text_eq}
use unsealer.Effect.{not_found_error, Result, ok, err}
use unsealer.Kv.{Service}
use unsealer.Kv.Contract.{KvContract, KvAvailable}

abbrev pub Memory : Type 0
Memory = Text → Option Text

unfoldable pub all_bytes : Text → Bool
all_bytes [] = true
all_bytes (c ∷ s) = ltb c 256 && all_bytes s

pub all_bytes-IsBytes : (s : Text) → all_bytes s ≡ true → IsBytes s
unfolding all_bytes
all_bytes-IsBytes [] h = tt
all_bytes-IsBytes (c ∷ s) h = ground (arith, all_bytes-IsBytes s)

pub IsBytes-all_bytes : (s : Text) → IsBytes s → all_bytes s ≡ true
unfolding all_bytes
IsBytes-all_bytes [] h = refl
IsBytes-all_bytes (c ∷ s) h = ground (arith, IsBytes-all_bytes s)

abbrev pub in_bytes : Option Text → Option Text
in_bytes none = none
in_bytes (some v) = if all_bytes v then some v else none

abbrev pub held : Memory → Text → Option Text
held w k = in_bytes (w k)

abbrev answer : Text → Option Text → Result Text
answer k none = err (not_found_error k)
answer k (some v) = ok v

abbrev pub write : Text → Text → Memory → Memory
write k v w j = if text_eq k j then some v else w j

abbrev pub memory_store : Service Memory
memory_store = record {
  set = λ k v w. (ok tt, write k v w);
  get = λ k w. (answer k (held w k), w);
  check_write_access = λ w. (ok tt, w);
  test = λ k w. (ok tt, w);
}

pub memory-KvContract : KvContract memory_store held
memory-KvContract = record {
  get_ok = λ k w {v} h. ground arith;
  get_bytes = λ k w {v} h. all_bytes-IsBytes v (ground arith);
  get_missing = λ k w {e} h missing. ground arith;
  get_keeps = λ k w j. refl;
  test_keeps = λ k w j. refl;
  set_ok = λ k v w j bytes h. ground (arith, IsBytes-all_bytes v bytes);
  set_frame = λ k v w j other. ground arith;
}

pub memory-KvAvailable : KvAvailable memory_store held
memory-KvAvailable = record {
  get_found = λ k w v h. ground arith;
  get_absent = λ k w h. (not_found_error k, ground arith, refl);
  set_succeeds = λ k v w bytes. refl;
  test_succeeds = λ k w. refl;
  check_succeeds = λ w. refl;
}

abbrev pub empty_memory : Memory
empty_memory k = none
