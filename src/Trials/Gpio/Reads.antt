-- ===== src/Trials/Gpio/Reads.antt =====
-- What ReadGpio and WaitGpio answer.
use nettool.Base.{
  List, [], ◌∷◌, Bool-cases, inl, inr, ℕ, zero, suc, ◌≡◌, ◌≢◌, refl, true, Option, none, some, ℤ,
  pos, int_laws,
}
use nettool.Trials.Gpio.{
  first_byte, with_first, Rights, File, signed_char, create_file, read_gpio, wait_gpio,
  wait_gpio_start,
}

-- What a first call of ReadGpio leaves for a second one to read.
pub data Resets (later : Rights) (reset next : ℕ) : Option (ℤ × File) → Type 0 where
  resets :
      (answer : ℤ) (behind last : File)
      → read_gpio later next behind ≡ some (signed_char reset, last)
      → Resets later reset next (some (answer, behind))

second :
    (later : Rights) (reset next : ℕ) (bytes : List ℕ)
    → later.can_update ≡ true
    → read_gpio later next (some (with_first reset bytes))
      ≡ some (signed_char reset, some (with_first next (with_first reset bytes)))
unfolding read_gpio
second later reset next [] u = rw u refl
second later reset next (b ∷ bytes) u = rw u refl

updated :
    (rights later : Rights) (reset next : ℕ) (bytes : List ℕ)
    → rights.can_create ≡ true
    → later.can_update ≡ true
    → Resets later reset next (read_gpio rights reset (some bytes))
unfolding read_gpio create_file
updated rights later reset next bytes c u = elim (Bool-cases rights.can_update) [
  | inl e ↦
      let behind = with_first reset bytes in
      rw e (
        resets (signed_char (first_byte bytes)) (some behind) (some (with_first next behind))
          (second later reset next bytes u))
  | inr e ↦ rw (e, c) (resets (signed_char 48) (some (reset ∷ [])) (some (next ∷ [])) (rw u refl))
]

-- When the program may create and update the file, ReadGpio returns, and the next call of ReadGpio
-- answers the value that the first one was given to reset it, whether the file was there or not.
pub read_gpio-Resets :
    (rights later : Rights) (reset next : ℕ) (file : File)
    → rights.can_create ≡ true
    → later.can_update ≡ true
    → Resets later reset next (read_gpio rights reset file)
unfolding read_gpio create_file
read_gpio-Resets rights later reset next none c u =
    rw c (resets (signed_char 48) (some (reset ∷ [])) (some (next ∷ [])) (rw u refl))
read_gpio-Resets rights later reset next (some bytes) c u =
    updated rights later reset next bytes c u

wait_gpio_stays :
    (fuel : ℕ) (condition : ℤ) → condition ≢ pos 0 → wait_gpio fuel (pos 0) condition ≡ none
unfolding wait_gpio
wait_gpio_stays zero condition h = refl
wait_gpio_stays (suc fuel) condition h = grind (int_laws, wait_gpio_stays fuel condition h)

-- WaitGpio never returns when it is to wait for a value that is not 0.
pub wait_gpio-endless :
    (fuel : ℕ) (condition : ℤ) → condition ≢ pos 0 → wait_gpio_start fuel condition ≡ none
unfolding wait_gpio_start
wait_gpio-endless fuel condition h = wait_gpio_stays fuel condition h
