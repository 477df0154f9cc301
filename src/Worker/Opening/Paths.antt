-- ===== src/Worker/Opening/Paths.antt =====
-- Where the bytes of an sstable's path go.
use ringdb.Prelude.{
  ℕ, zero, suc, ◌+◌, ◌-◌, ◌/◌, ◌%◌, take, ◌≤◌, ◌<◌, ◌≡◌, ◌⊎◌, inl, inr, refl, ◌∙◌, ap, Bool, List,
  [], ◌∷◌, ◌++◌, length, length-append, get_or, arith, Bool-cases, ltb,
}
use ringdb.Memory.{Memory, fill, fill_inside, fill_outside}
use ringdb.Worker.{Place}
use ringdb.Worker.Opening.{write_bytes, digits, snprintf, directory, write_path}

write_bytes_outside :
    (m : Memory) (at : ℕ) (bs : List ℕ) (p : ℕ)
    → (p < at) ⊎ (at + length bs ≤ p)
    → write_bytes m at bs p ≡ m p
unfolding write_bytes
write_bytes_outside m at [] p o = refl
write_bytes_outside m at (b ∷ bs) p o =
    write_bytes_outside (fill m at 1 b) (at + 1) bs p
      (elim o [ inl l ↦ inl (omega arith) | inr g ↦ inr (omega arith) ])
    ∙ fill_outside m at 1 b p (elim o [ inl l ↦ inl l | inr g ↦ inr (omega arith) ])

write_bytes_inside :
    (m : Memory) (at : ℕ) (bs : List ℕ) (i : ℕ)
    → i < length bs
    → write_bytes m at bs (at + i) ≡ get_or bs i 0
unfolding write_bytes
write_bytes_inside m at [] i h = elim h [ ]
write_bytes_inside m at (b ∷ bs) zero h =
    write_bytes_outside (fill m at 1 b) (at + 1) bs (at + 0) (inl (omega arith))
    ∙ fill_inside m at 1 b (at + 0) (omega arith) (omega arith)
write_bytes_inside m at (b ∷ bs) (suc i) h =
    let e : at + suc i ≡ at + 1 + i = omega arith in
    ap (write_bytes (fill m at 1 b) (at + 1) bs) e
    ∙ write_bytes_inside (fill m at 1 b) (at + 1) bs i (omega arith)

digits_some : (fuel n : ℕ) → 1 ≤ length (digits (suc fuel) n)
unfolding digits
digits_some fuel n = elim (Bool-cases (ltb n 10)) [
  | inl one ↦ rw one (omega arith)
  | inr more ↦ rw more (omega (arith, length-append (digits fuel (n / 10)) ((48 + n % 10) ∷ [])))
]

-- snprintf writes no byte in front of its destination.
snprintf_before : (m : Memory) (at size n p : ℕ) → p < at → snprintf m at size n p ≡ m p
unfolding snprintf
snprintf_before m at size n p h =
    write_bytes_outside m at (take (size - 1) (digits 10 n) ++ (0 ∷ [])) p (inl h)

-- Where the structure begins at least eight bytes in front of the path: the directory's name overwrites the
-- first eight bytes of the structure, and the first byte of the path is not written, so that the path
-- does not begin as it should.
write_path-misplaced :
    (ringdb_test : Bool) (info_at file_path : ℕ) (m : Memory) (p : Place)
    → info_at + 8 ≤ file_path
    → (write_path ringdb_test info_at file_path m p file_path ≡ m file_path)
      × ((i : ℕ)
          → i < 8
          → write_path ringdb_test info_at file_path m p (info_at + i)
            ≡ get_or (directory ringdb_test) i 0)
unfolding write_path
write_path-misplaced ringdb_test info_at file_path m p h =
    let name = directory ringdb_test in
    let n = length (digits 10 p.level) in
    let some_digit = digits_some 9 p.level in
    let one = write_bytes m info_at name in
    let two = snprintf one (file_path + 8) 10 p.level in
    let three = fill two (file_path + n) 1 47 in
    let late : (q : ℕ)
        → q ≤ file_path
        → snprintf three (file_path + n + 1) 10 p.index_in_level q ≡ one q =
      λ q l.
        snprintf_before three (file_path + n + 1) 10 p.index_in_level q (omega arith)
        ∙ fill_outside two (file_path + n) 1 47 q (inl (omega arith))
        ∙ snprintf_before one (file_path + 8) 10 p.level q (omega arith) in
    (
      late file_path (omega arith) ∙ write_bytes_outside m info_at name file_path (inr h),
      λ i l. late (info_at + i) (omega arith) ∙ write_bytes_inside m info_at name i l,
    )
