-- ===== src/Parser/Stores/Elf.antt =====
-- The machine that an ELF header names is found in either order of bytes.
use hcp.Prelude.{
  ℕ, ◌/◌, ◌%◌, ◌≡◌, refl, ap, ◌∙◌, true, false, ◌||◌, List, ◌∷◌, ◌==◌, ltb, length, arith,
  Bool-cases, inl, inr,
}
use hcp.Text.{bytes_prefix}
use hcp.Parser.Stores.{elf_machine, byte, unpack_h, elf_architecture}

unpack_h-little : (m : ℕ) → unpack_h true (m % 256) (m / 256) ≡ m
unfolding unpack_h
unpack_h-little m = omega arith

unpack_h-big : (m : ℕ) → unpack_h false (m / 256) (m % 256) ≡ m
unfolding unpack_h
unpack_h-big m = omega arith

-- e_type and what follows e_machine may be anything, and so may the padding.
module _ (a b c d e f g h i j k l x y : ℕ) (rest : List ℕ) where
  -- the first bytes of an ELF file, of that class and order of bytes
  abbrev header : ℕ → ℕ → ℕ → ℕ → List ℕ
  header ei_class order first second =
      127 ∷ 69 ∷ 76 ∷ 70 ∷ ei_class ∷ order ∷ a ∷ b ∷ c ∷ d ∷ e ∷ f ∷ g ∷ h ∷ i ∷ j ∷ k ∷ l ∷ first
      ∷ second ∷ x ∷ y ∷ rest

  elf_architecture-header :
      (ei_class order first second : ℕ)
      → (ei_class == 1 || (ei_class == 2)) ≡ true
      → elf_architecture (header ei_class order first second)
        ≡ elf_machine (unpack_h (order == 1) first second)
  unfolding elf_architecture byte bytes_prefix
  elf_architecture-header ei_class order first second valid =
      let long : ltb (length (header ei_class order first second)) 20 ≡ false = ground arith in
      let longer : ltb (length (header ei_class order first second)) 22 ≡ false = ground arith in
      elim (Bool-cases (ei_class == 1)) [
        | inl is_one ↦ rw (long, is_one) refl
        | inr other ↦ rw (long, valid, longer, other) refl
      ]

  -- A machine of two bytes is recognised in a header that has them in either order and says which.
  elf_both_orders :
      (ei_class machine : ℕ)
      → (ei_class == 1 || (ei_class == 2)) ≡ true
      → (elf_architecture (header ei_class 1 (machine % 256) (machine / 256)) ≡ elf_machine machine)
        × (elf_architecture (header ei_class 2 (machine / 256) (machine % 256))
            ≡ elf_machine machine)
  elf_both_orders ei_class machine valid = (
    elf_architecture-header ei_class 1 (machine % 256) (machine / 256) valid
        ∙ ap elf_machine (unpack_h-little machine),
    elf_architecture-header ei_class 2 (machine / 256) (machine % 256) valid
        ∙ ap elf_machine (unpack_h-big machine),
  )
