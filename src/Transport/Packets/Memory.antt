-- ===== src/Transport/Packets/Memory.antt =====
-- Copying to memory and reading from it, as examples/embassy/src/transport.rs does.
use stm32wb_hci.Prelude.{
  ℕ, zero, suc, ◌+◌, ◌≤◌, ◌<◌, ◌≡◌, ◌≢◌, ◌⊎◌, inl, inr, refl, ◌∙◌, ap, List, [], ◌∷◌, ◌++◌, arith,
  length, ◌==◌, if◌then◌else◌,
}
use stm32wb_hci.Transport.Packets.{Bytes, copy, read_bytes}

abbrev pub Outside : ℕ → ℕ → ℕ → Type 0
Outside from size x = (x < from) ⊎ (from + size ≤ x)

pub copy-other :
    (memory : Bytes) (at : ℕ) (bytes : List ℕ) (x : ℕ)
    → Outside at (length bytes) x
    → copy memory at bytes x ≡ memory x
unfolding copy
copy-other memory at [] x h = refl
copy-other memory at (b ∷ bytes) x h =
    copy-other (λ y. if y == at then b else memory y) (at + 1) bytes x (further h)
    ∙ ground (arith, apart h)
  where
    further : Outside at (suc (length bytes)) x → Outside (at + 1) (length bytes) x
    further (inl before) = inl (omega (arith, before))
    further (inr behind) = inr (omega (arith, behind))

    apart : Outside at (suc (length bytes)) x → x ≢ at
    apart (inl before) e = omega (arith, before, e)
    apart (inr behind) e = omega (arith, behind, e)

pub read-copy :
    (memory : Bytes) (at : ℕ) (bytes : List ℕ)
    → read_bytes (copy memory at bytes) at (length bytes) ≡ bytes
unfolding copy read_bytes
read-copy memory at [] = refl
read-copy memory at (b ∷ bytes) =
    let step : Bytes = λ y. if y == at then b else memory y in
    let here : step at ≡ b = ground arith in
    let head : copy step (at + 1) bytes at ≡ b =
      copy-other step (at + 1) bytes at (inl (omega arith)) ∙ here in
    rw (head, read-copy step (at + 1) bytes) refl

pub read_bytes-append :
    (memory : Bytes) (at a b : ℕ)
    → read_bytes memory at (a + b) ≡ read_bytes memory at a ++ read_bytes memory (at + a) b
unfolding read_bytes
read_bytes-append memory at zero b =
    let e : 0 + b ≡ b = omega arith in let e' : at + 0 ≡ at = omega arith in rw (e, e') refl
read_bytes-append memory at (suc a) b =
    let e : suc a + b ≡ suc (a + b) = omega arith in
    let e' : at + suc a ≡ at + 1 + a = omega arith in
    rw (e, e') (ap (λ l. memory at ∷ l) (read_bytes-append memory (at + 1) a b))

-- What is read does not depend on other addresses.
pub read_bytes-same :
    (memory memory' : Bytes) (at n : ℕ)
    → ((x : ℕ) → at ≤ x → x < at + n → memory' x ≡ memory x)
    → read_bytes memory' at n ≡ read_bytes memory at n
unfolding read_bytes
read_bytes-same memory memory' at zero h = refl
read_bytes-same memory memory' at (suc n) h =
    rw
      (
        h at (omega arith) (omega arith),
        read_bytes-same memory memory' (at + 1) n
            (λ x low high. h x (omega (arith, low)) (omega (arith, high))),
      )
      refl
