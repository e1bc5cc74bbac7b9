-- ===== src/Stun/Reading.antt =====
-- The reads of `stun_process_response` of src/ice/stun.c, and the fuel of its attribute loop.
use tinyrtc.Prelude.{
  ℕ, zero, suc, ◌+◌, ◌*◌, ◌≤◌, ◌≡◌, ◌≢◌, refl, inl, inr, Bool, true, false, not, ◌&&◌, List, arith,
  length, ltb, ◌==◌, lt_cases, Bool-cases, Outcome, done, refused, fault, ◌>>=◌, if◌then◌else◌,
  read, read16, read32, read-done, read16-done, read32-done, Option, none, some, if-false,
}
use tinyrtc.Stun.{
  Mapped, read_xor_mapped, read_mapped, read_attribute, attributes, process_response,
  validate_header, padded, header_len, binding_response, mapped_result, attr_xor_mapped_address,
  attr_mapped_address,
}

-- The outcome is a value.
abbrev Succeeds {ℓ} : {A : Type ℓ} → Outcome A → Type ℓ
Succeeds m = (a : _) × (m ≡ done a)

>>=-Succeeds {ℓ κ} :
    {A : Type ℓ} {B : Type κ} (m : Outcome A) (f : A → Outcome B)
    → Succeeds m
    → ((a : A) → Succeeds (f a))
    → Succeeds (m >>= f)
>>=-Succeeds (done a) f h k = k a
>>=-Succeeds refused f (a, e) k = absurd (cc)
>>=-Succeeds fault f (a, e) k = absurd (cc)

if-Succeeds {ℓ} :
    {A : Type ℓ} (c : Bool) (m n : Outcome A)
    → (c ≡ true → Succeeds m)
    → (c ≡ false → Succeeds n)
    → Succeeds (if c then m else n)
if-Succeeds true m n h k = h refl
if-Succeeds false m n h k = k refl

mapped_result-ne-fault : (port : ℕ) (addr : Option ℕ) → mapped_result port addr ≢ fault
unfolding mapped_result
mapped_result-ne-fault port none = λ e. cc
mapped_result-ne-fault port (some addr) = λ e. cc

module _ (d : List ℕ) where
  read_xor_mapped-done :
      (p attr_len : ℕ) (found : Mapped)
      → p + attr_len ≤ length d
      → Succeeds (read_xor_mapped d p attr_len found)
  unfolding read_xor_mapped
  read_xor_mapped-done p attr_len found h =
      if-Succeeds (ltb attr_len 4) _ _ (λ e. (found, refl))
        λ e. >>=-Succeeds (read d (p + 1)) _ (read-done d (p + 1) (ground arith)) λ family.
          >>=-Succeeds (read16 d (p + 2)) _ (read16-done d (p + 2) (ground arith)) λ port.
            if-Succeeds (not (family == 1 && attr_len == 8)) _ _ (λ f. (_, refl))
              λ f.
                >>=-Succeeds (read32 d (p + 4)) _ (read32-done d (p + 4) (ground arith))
                  λ ip. (_, refl)

  read_mapped-done :
      (p attr_len : ℕ) (found : Mapped)
      → p + attr_len ≤ length d
      → Succeeds (read_mapped d p attr_len found)
  unfolding read_mapped
  read_mapped-done p attr_len found h =
      if-Succeeds (ltb attr_len 4) _ _ (λ e. (found, refl))
        λ e. >>=-Succeeds (read d (p + 1)) _ (read-done d (p + 1) (ground arith)) λ family.
          >>=-Succeeds (read16 d (p + 2)) _ (read16-done d (p + 2) (ground arith)) λ port.
            if-Succeeds (not (family == 1 && attr_len == 8)) _ _ (λ f. (_, refl))
              λ f.
                >>=-Succeeds (read32 d (p + 4)) _ (read32-done d (p + 4) (ground arith))
                  λ ip. (_, refl)

  attributes-done :
      (fuel p end : ℕ) (found : Mapped)
      → end ≤ p + 4 * fuel
      → end ≤ length d
      → Succeeds (attributes fuel d p end found)
  unfolding attributes read_attribute
  attributes-done zero p end found q h =
      let over : ltb p end ≡ false = ground arith in (found, if-false _ _ _ over)
  attributes-done (suc fuel) p end found q h =
      if-Succeeds (not (ltb p end)) _ _ (λ e. (found, refl))
        λ e.
          if-Succeeds (ltb end (p + 4)) _ _ (λ f. (found, refl))
            λ f. >>=-Succeeds (read16 d p) _ (read16-done d p (ground arith)) λ attr_type.
              >>=-Succeeds (read16 d (p + 2)) _ (read16-done d (p + 2) (ground arith)) λ attr_len.
                if-Succeeds (ltb end (p + 4 + padded attr_len)) _ _ (λ g. (found, refl))
                  λ g.
                    >>=-Succeeds (read_attribute d (p + 4) attr_type attr_len found) _
                      (if-Succeeds (attr_type == attr_xor_mapped_address) _ _
                        (λ k. read_xor_mapped-done (p + 4) attr_len found (ground arith))
                        (λ k.
                          if-Succeeds (attr_type == attr_mapped_address) _ _
                            (λ l. read_mapped-done (p + 4) attr_len found (ground arith))
                            (λ l. (found, refl))))
                      λ next.
                        attributes-done fuel (p + 4 + padded attr_len) end next (omega arith) h

  -- Where the length field of the header announces no more bytes than the datagram has, reading it
  -- as a response reads nothing outside it.
  pub process_response-ne-fault :
      ((len : ℕ) → read16 d 2 ≡ done len → header_len + len ≤ length d) → process_response d ≢ fault
  unfolding process_response
  process_response-ne-fault h = elim (lt_cases (length d) header_len) [
    | inl (short, t) ↦ rw t (λ e. cc)
    | inr (long, t) ↦
        let (msg_type, e0) = read16-done d 0 (omega arith) in
        let (msg_len, e2) = read16-done d 2 (omega arith) in
        let (cookie, e4) = read32-done d 4 (omega arith) in
        let (found, e) =
          attributes-done msg_len header_len (header_len + msg_len)
            (record { port = 0; addr = none }) (omega arith) (h msg_len e2) in
        rw (t, e0, e2, e4)
          (elim (Bool-cases (validate_header cookie msg_len && msg_type == binding_response)) [
            | inr bad ↦ rw bad (λ q. cc)
            | inl good ↦ rw (good, e) (mapped_result-ne-fault found.port found.addr)
          ])
  ]

-- The attribute loop on bytes that the datagram has ends, with a result, after at most a quarter as
-- many rounds as there are bytes: any fuel of that many rounds or more is enough, whatever the
-- attributes and their lengths are.
pub attributes_fuel :
    (fuel : ℕ) (d : List ℕ) (p end : ℕ) (found : Mapped)
    → end ≤ p + 4 * fuel
    → end ≤ length d
    → (result : Mapped) × (attributes fuel d p end found ≡ done result)
attributes_fuel fuel d p end found enough there = attributes-done d fuel p end found enough there
