-- ===== src/Nvs/Durable.antt =====
-- NVSStorage meets the Storage contract, and what it committed comes back after a restart.
use via_arduino.Base.{ℕ, ◌≡◌, refl, arith, ap, sym, ◌∙◌, true, Option, some, List, []}
use via_arduino.Base.{length, slice, splice, length-splice, length-replicate}
use via_arduino.Protocol.Contract.{IsStorage}
use via_arduino.Protocol.Persist.Record.{splice-nil, nil_of_length}
use via_arduino.Nvs.{
  Preferences, NvsStorage, nvs_ops, nvs_capacity, begin, read, write, commit, erase, new_storage,
}

module _ {P : Type 0} (ops : Preferences P) where
  -- The shadow copy has the size of the capacity.
  abbrev pub IsWhole : NvsStorage P → Type 0
  IsWhole s = length s.shadow ≡ nvs_capacity

  -- Over any Preferences, NVSStorage meets the Storage contract on its shadow copy.
  pub nvs-IsStorage : IsStorage (nvs_ops ops) IsWhole (λ (s : NvsStorage P). s.shadow)
  unfolding read write commit erase
  nvs-IsStorage = record {
    holds = λ s u. ground (arith, u);
    read_back = λ s off n u le. ground (arith, λ (z : n ≡ 0). ap (slice s.shadow off) z);
    write_lem = λ off bytes s u h. ground (
      arith,
      u,
      length-splice s.shadow off bytes,
      nil_of_length bytes,
      splice-nil s.shadow off,
      λ (z : bytes ≡ []). ap (splice s.shadow off) z,
    );
    commit_lem = λ s u h. (u, refl, refl);
    erase_lem = λ s u h. (
      length-replicate {A = ℕ} nvs_capacity 0xFF,
      length-replicate {A = ℕ} nvs_capacity 0xFF ∙ sym u,
      refl,
    );
  }

  -- What is relied on of Preferences: after putBytes has stored a whole blob, and only then, an
  -- opened namespace reads that blob.
  pub record IsDurable (stored : P → Option (List ℕ)) : Type 0 where
    pub opens : (p : P) → (ops.begin p).0 ≡ true → stored (ops.begin p).1 ≡ stored p
    pub gets :
        (p : P) (bytes : List ℕ) (n : ℕ)
        → stored p ≡ some bytes
        → length bytes ≡ n
        → ops.get_bytes p n ≡ bytes
    pub puts :
        (bytes : List ℕ) (p : P)
        → (ops.put_bytes bytes p).0 ≡ length bytes
        → stored (ops.put_bytes bytes p).1 ≡ some bytes

  -- After a commit that succeeds, a restart that opens the namespace has the committed bytes back.
  pub begin-commit :
      (stored : P → Option (List ℕ)) (law : IsDurable stored) (s : NvsStorage P)
      → IsWhole s
      → (commit ops s).0 ≡ true
      → (begin ops (new_storage (commit ops s).1.prefs)).0 ≡ true
      → (begin ops (new_storage (commit ops s).1.prefs)).1.shadow ≡ s.shadow
  unfolding begin commit new_storage
  begin-commit stored law s whole saved opened =
      let prefs = (ops.put_bytes s.shadow s.prefs).1 in
      let kept : stored prefs ≡ some s.shadow =
        law.puts s.shadow s.prefs (ground (arith, saved, whole)) in
      let loads : ops.get_bytes (ops.begin prefs).1 nvs_capacity ≡ s.shadow =
        law.gets (ops.begin prefs).1 s.shadow nvs_capacity
          (law.opens prefs (ground (arith, opened)) ∙ kept) whole in
      ground (arith, opened, loads, whole)
