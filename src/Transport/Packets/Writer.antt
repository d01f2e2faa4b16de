-- ===== src/Transport/Packets/Writer.antt =====
-- What the writers of examples/embassy/src/transport.rs leave in memory.
use mathlib.Core.List.{flatten}
use stm32wb_hci.Prelude.{
  ℕ, zero, suc, ◌+◌, ◌-◌, ◌/◌, ◌%◌, ◌≤◌, ◌≡◌, ◌⊎◌, inl, inr, refl, sym, ◌∙◌, ap, true, false, List,
  [], ◌∷◌, ◌++◌, arith, length, length-append, take, ◌==◌, if◌then◌else◌,
}
use mathlib.Core.Path.{subst}
use native.Mathlib.Decide.{dec_le, dec_lt}
use stm32wb_hci.Prelude.Bytes.{to_le_bytes}
use stm32wb_hci.Transport.Packets.{
  Bytes, copy, VolatileWriter, Written, written, failed, write_zero, min, write, write_into,
  read_bytes,
}
use stm32wb_hci.Transport.Packets.Memory.{
  Outside, copy-other, read-copy, read_bytes-append, read_bytes-same,
}

-- The memory after these writes through one writer.
unfoldable pub write_each : Bytes → VolatileWriter → List (List ℕ) → Bytes
write_each memory self [] = memory
write_each memory self (buf ∷ bufs) =
    let (memory, self, result) = write memory self buf in write_each memory self bufs

-- A write that writes `count` bytes.
abbrev wrote : Bytes → VolatileWriter → List ℕ → ℕ → Bytes × VolatileWriter × Written
wrote memory self buf count = (
  copy memory self.start (take count buf),
  record { start = self.start + count; len = self.len - count },
  written count,
)

write-cases :
    (memory : Bytes) (self : VolatileWriter) (buf : List ℕ)
    → ((self.len ≡ 0) × (write memory self buf ≡ (memory, self, failed write_zero)))
      ⊎ ((count : ℕ) × (count ≤ self.len)
          × (count ≤ length buf)
          × ((count ≡ self.len) ⊎ (count ≡ length buf))
          × (write memory self buf ≡ wrote memory self buf count))
unfolding write
write-cases memory self buf = elim (dec_lt 0 self.len) [
  | no full ↦
      (let empty : self.len ≡ 0 = omega (arith, full) in
        let test : (self.len == 0) ≡ true = ground (arith, empty) in
        inl (
          empty,
          ap
              (λ b.
                if b
                then (memory, self, failed write_zero)
                else wrote memory self buf (min self.len (length buf)))
              test,
        ))
  | yes room ↦
      (let test : (self.len == 0) ≡ false = ground (arith, room) in
        let e =
          ap
            (λ b.
              if b
              then (memory, self, failed write_zero)
              else wrote memory self buf (min self.len (length buf)))
            test in
        elim (dec_le self.len (length buf)) [
          | yes long ↦
              (let m : min self.len (length buf) ≡ self.len = ground (arith, long) in
                inr (self.len, omega arith, long, inl refl, e ∙ ap (wrote memory self buf) m))
          | no short ↦
              (let m : min self.len (length buf) ≡ length buf = ground (arith, short) in
                inr (
                  length buf,
                  omega (arith, short),
                  omega arith,
                  inr refl,
                  e ∙ ap (wrote memory self buf) m,
                ))
        ])
]

length-take_le : (n : ℕ) (xs : List ℕ) → n ≤ length xs → length (take n xs) ≡ n
length-take_le zero xs h = refl
length-take_le (suc n) [] h = absurd (omega (arith, h))
length-take_le (suc n) (x ∷ xs) h = omega (arith, length-take_le n xs (omega (arith, h)))

write-other :
    (memory : Bytes) (self : VolatileWriter) (buf : List ℕ) (x : ℕ)
    → Outside self.start self.len x
    → ((write memory self buf).0 x ≡ memory x)
      × Outside (write memory self buf).1.start (write memory self buf).1.len x
write-other memory self buf x h = elim (write-cases memory self buf) [
  | inl (empty, e) ↦ subst (λ r. (r.0 x ≡ memory x) × Outside r.1.start r.1.len x) (sym e) (refl, h)
  | inr (count, fits, most, which, e) ↦
      let size = length-take_le count buf most in
      subst (λ r. (r.0 x ≡ memory x) × Outside r.1.start r.1.len x) (sym e)
        (
          copy-other memory self.start (take count buf) x
              (inner count fits (take count buf) size h),
          outer count fits h,
        )
]
  where
    inner :
        (count : ℕ)
        → count ≤ self.len
        → (bs : List ℕ) → length bs ≡ count
        → Outside self.start self.len x
        → Outside self.start (length bs) x
    inner count fits bs size (inl before) = inl before
    inner count fits bs size (inr behind) = inr (omega (arith, fits, size, behind))

    outer :
        (count : ℕ)
        → count ≤ self.len
        → Outside self.start self.len x
        → Outside (self.start + count) (self.len - count) x
    outer count fits (inl before) = inl (omega (arith, before))
    outer count fits (inr behind) = inr (omega (arith, fits, behind))

-- Whatever is written through a writer, it changes no byte outside the writer's range.
pub write_each_bounded :
    (bufs : List (List ℕ)) (memory : Bytes) (self : VolatileWriter) (x : ℕ)
    → Outside self.start self.len x
    → write_each memory self bufs x ≡ memory x
unfolding write_each
write_each_bounded [] memory self x h = refl
write_each_bounded (buf ∷ bufs) memory self x h =
    let (same, out) = write-other memory self buf x h in
    write_each_bounded bufs (write memory self buf).0 (write memory self buf).1 x out ∙ same

take-all : (xs : List ℕ) → take (length xs) xs ≡ xs
take-all [] = refl
take-all (x ∷ xs) = ap (λ l. x ∷ l) (take-all xs)

-- A write of what fits.
write-fits :
    (memory : Bytes) (self : VolatileWriter) (buf : List ℕ)
    → length buf ≤ self.len
    → ((write memory self buf).0 ≡ copy memory self.start buf)
      × ((write memory self buf).1
          ≡ record { start = self.start + length buf; len = self.len - length buf })
unfolding copy
write-fits memory self buf h = elim (write-cases memory self buf) [
  | inl (empty, e) ↦
      let none_left : buf ≡ [] = nil-of buf (omega (arith, h, empty)) in
      let start : self.start + 0 ≡ self.start = omega arith in
      let rest : self.len - 0 ≡ self.len = omega arith in
      subst
        (λ r.
          (r.0 ≡ copy memory self.start buf)
          × (r.1 ≡ record { start = self.start + length buf; len = self.len - length buf }))
        (sym e) (rw (none_left, start, rest) (refl, refl))
  | inr (count, fits, most, which, e) ↦
      let all : count ≡ length buf = whole count fits most which in
      subst
        (λ r.
          (r.0 ≡ copy memory self.start buf)
          × (r.1 ≡ record { start = self.start + length buf; len = self.len - length buf }))
        (sym e) (rw (all, take-all buf) (refl, refl))
]
  where
    nil-of : (buf : List ℕ) → length buf ≡ 0 → buf ≡ []
    nil-of [] h = refl
    nil-of (b ∷ buf) h = absurd (omega (arith, h))

    whole :
        (count : ℕ)
        → count ≤ self.len
        → count ≤ length buf
        → (count ≡ self.len) ⊎ (count ≡ length buf)
        → count ≡ length buf
    whole count fits most (inl e) = omega (arith, e, most, h)
    whole count fits most (inr e) = e

-- Parts that fit the writer together stand in memory one behind the other, from the writer's start.
pub write_each_reads :
    (bufs : List (List ℕ)) (memory : Bytes) (self : VolatileWriter)
    → length (flatten bufs) ≤ self.len
    → read_bytes (write_each memory self bufs) self.start (length (flatten bufs)) ≡ flatten bufs
unfolding write_each flatten
write_each_reads [] memory self h = unfold read_bytes in refl
write_each_reads (buf ∷ bufs) memory self h =
    let memory' = (write memory self buf).0 in
    let self' = (write memory self buf).1 in
    let total = length-append buf (flatten bufs) in
    let (copied, left) = write-fits memory self buf (omega (arith, h, total)) in
    let start : self'.start ≡ self.start + length buf = ap (λ (w : VolatileWriter). w.start) left in
    let room : self'.len ≡ self.len - length buf = ap (λ (w : VolatileWriter). w.len) left in
    let others = write_each_reads bufs memory' self' (omega (arith, h, total, room)) in
    let kept : read_bytes (write_each memory' self' bufs) self.start (length buf) ≡ buf =
      read_bytes-same memory' (write_each memory' self' bufs) self.start (length buf)
        (λ x low high. write_each_bounded bufs memory' self' x (inl (omega (arith, high, start))))
      ∙ ap (λ m. read_bytes m self.start (length buf)) copied
      ∙ read-copy memory self.start buf in
    ap (λ n. read_bytes (write_each memory' self' bufs) self.start n) total
    ∙ read_bytes-append (write_each memory' self' bufs) self.start (length buf)
        (length (flatten bufs))
    ∙ ap
        (λ l.
          l
          ++ read_bytes (write_each memory' self' bufs) (self.start + length buf)
              (length (flatten bufs)))
        kept
    ∙ ap (λ l. buf ++ l)
        (ap (λ a. read_bytes (write_each memory' self' bufs) a (length (flatten bufs))) (sym start)
          ∙ others)

-- `write_into` leaves the packet's type, its opcode, the length of the payload in one byte, and the
-- payload, behind the list header.
pub write_into_reads :
    (memory : Bytes) (buf packet_type cmd_code : ℕ) (payload : List ℕ)
    → read_bytes (write_into memory buf packet_type cmd_code payload) (buf + 8) (4 + length payload)
      ≡ packet_type ∷ to_le_bytes 2 cmd_code ++ ((length payload % 256) ∷ payload)
unfolding write_into to_le_bytes
write_into_reads memory buf packet_type cmd_code payload =
    let stub : List ℕ =
      packet_type ∷ cmd_code % 256 ∷ cmd_code / 256 % 256 ∷ length payload % 256 ∷ [] in
    let memory₁ = copy memory (buf + 8) stub in
    let same =
      read_bytes-same memory₁ (copy memory₁ (buf + 8 + 4) payload) (buf + 8) 4
        (λ x low high. copy-other memory₁ (buf + 8 + 4) payload x (inl (omega (arith, high)))) in
    read_bytes-append (copy memory₁ (buf + 8 + 4) payload) (buf + 8) 4 (length payload)
    ∙ ap (λ l. l ++ read_bytes (copy memory₁ (buf + 8 + 4) payload) (buf + 8 + 4) (length payload))
        (same ∙ read-copy memory (buf + 8) stub)
    ∙ ap (λ l. stub ++ l) (read-copy memory₁ (buf + 8 + 4) payload)
