-- ===== src/Generated/Rest/Timeout.antt =====
-- The timeouts of the requests for collections.
use bitcoin_controller.Base.{
  ◌≡◌, refl, sym, ◌∙◌, subst, ap, ℕ, suc, ◌+◌, ◌*◌, ◌-◌, ◌%◌, ◌<◌, ◌≤◌, ℤ, pos, negsuc, pos_part,
  neg_part, String, Bool-cases, inl, inr, ltb, Option, none, some, true, arith,
}
use bitcoin_controller.Kube.{ListOptions}
use bitcoin_controller.Generated.Rest.{
  int64_of, timeout_of, list_request, watch_request, delete_collection_request,
}

-- The integer is one of 64 bits.
abbrev pub IsInt64 : ℤ → Type 0
IsInt64 (pos n) = n < 9223372036854775808
IsInt64 (negsuc n) = n < 9223372036854775808

-- The number of nanoseconds, without a bound.
abbrev pub nanoseconds : Option ℤ → ℤ
nanoseconds none = pos 0
nanoseconds (some (pos n)) = pos (n * 1000000000)
nanoseconds (some (negsuc n)) = negsuc (suc n * 1000000000 - 1)

-- The residue modulo 2 ^ 64.
abbrev pub residue : ℤ → ℕ
residue (pos n) = n % 18446744073709551616
residue (negsuc n) = 18446744073709551615 - n % 18446744073709551616

-- At most so many seconds, before or after.
abbrev pub AtMost : ℕ → Option ℤ → Type 0
AtMost k none = Unit
AtMost k (some s) = pos_part s + neg_part s ≤ k

int64_of-low : (r : ℕ) → r < 9223372036854775808 → int64_of r ≡ pos r
int64_of-low r l = ground (arith, l)

int64_of-high : (r : ℕ) → 9223372036854775808 ≤ r → int64_of r ≡ negsuc (18446744073709551615 - r)
int64_of-high r l = ground (arith, l)

int64_of-IsInt64 : (r : ℕ) → r < 18446744073709551616 → IsInt64 (int64_of r)
int64_of-IsInt64 r l = elim (Bool-cases (ltb r 9223372036854775808)) [
  | inl e ↦ subst IsInt64 (sym (int64_of-low r (ground (arith, e)))) (ground (arith, e))
  | inr e ↦
      let high : 9223372036854775808 ≤ r = ground (arith, e) in
      subst IsInt64 (sym (int64_of-high r high)) (omega (arith, l, high))
]

residue-int64_of : (r : ℕ) → r < 18446744073709551616 → residue (int64_of r) ≡ r
residue-int64_of r l = elim (Bool-cases (ltb r 9223372036854775808)) [
  | inl e ↦ ap residue (int64_of-low r (ground (arith, e))) ∙ omega (arith, l)
  | inr e ↦
      let high : 9223372036854775808 ≤ r = ground (arith, e) in
      ap residue (int64_of-high r high) ∙ omega (arith, l, high)
]

timeout_of-residue : (s : Option ℤ) → residue (timeout_of s) ≡ residue (nanoseconds s)
timeout_of-residue none = refl
timeout_of-residue (some (pos n)) = residue-int64_of _ (omega arith)
timeout_of-residue (some (negsuc n)) =
    residue-int64_of
      ((18446744073709551616 - suc n * 1000000000 % 18446744073709551616) % 18446744073709551616)
      (omega arith)
    ∙ omega arith

timeout_of-IsInt64 : (s : Option ℤ) → IsInt64 (timeout_of s)
timeout_of-IsInt64 none = omega arith
timeout_of-IsInt64 (some (pos n)) = int64_of-IsInt64 _ (omega arith)
timeout_of-IsInt64 (some (negsuc n)) = int64_of-IsInt64 _ (omega arith)

timeout_of-nanoseconds : (s : Option ℤ) → AtMost 9223372036 s → timeout_of s ≡ nanoseconds s
timeout_of-nanoseconds none l = refl
timeout_of-nanoseconds (some (pos n)) l =
    let small : n * 1000000000 % 18446744073709551616 ≡ n * 1000000000 = omega (arith, l) in
    rw small (int64_of-low (n * 1000000000) (omega (arith, l)))
timeout_of-nanoseconds (some (negsuc n)) l =
    let same : (18446744073709551616 - suc n * 1000000000 % 18446744073709551616)
          % 18446744073709551616
        ≡ 18446744073709551616 - suc n * 1000000000 =
      omega (arith, l) in
    rw same (
      int64_of-high (18446744073709551616 - suc n * 1000000000) (omega (arith, l))
      ∙ ap negsuc (omega (arith, l)))

module _ (Get : Type 0) {Delete : Type 0} (ns : String) (opts : ListOptions)
    (options : Option Delete) where
  -- The requests that list, watch and delete the networks of a namespace carry the same timeout. It is
  -- the integer of 64 bits that is equal to the nanoseconds of the timeout of the options modulo
  -- 2 ^ 64. A watch sends what a list does whose options say that it watches.
  pub list_request-timeout :
      let sent = timeout_of opts.timeout_seconds in
      ((list_request {GetOptions = Get} {DeleteOptions = Delete} ns opts).timeout ≡ some sent)
      × ((delete_collection_request {GetOptions = Get} ns options opts).timeout ≡ some sent)
      × IsInt64 sent
      × (residue sent ≡ residue (nanoseconds opts.timeout_seconds))
      × (watch_request {GetOptions = Get} {DeleteOptions = Delete} ns opts
          ≡ list_request ns (record opts { watch = true }))
  unfolding list_request watch_request delete_collection_request
  list_request-timeout = (
    refl,
    refl,
    timeout_of-IsInt64 opts.timeout_seconds,
    timeout_of-residue opts.timeout_seconds,
    refl,
  )

  -- If the timeout of the options is at most 9223372036 seconds, before or after, or if there is
  -- none, the timeout that is sent is exactly the number of nanoseconds, and 0 if there is none.
  list_request-nanoseconds :
      AtMost 9223372036 opts.timeout_seconds
      → let exact = some (nanoseconds opts.timeout_seconds) in
        ((list_request {GetOptions = Get} {DeleteOptions = Delete} ns opts).timeout ≡ exact)
        × ((watch_request {GetOptions = Get} {DeleteOptions = Delete} ns opts).timeout ≡ exact)
        × ((delete_collection_request {GetOptions = Get} ns options opts).timeout ≡ exact)
  unfolding list_request watch_request delete_collection_request
  list_request-nanoseconds l =
      let e = ap some (timeout_of-nanoseconds opts.timeout_seconds l) in (e, e, e)
