-- ===== src/Library/Verdict.antt =====
-- What a reply says of a request, by rtnetlink(7): only a message of type NLMSG_ERROR answers it,
-- with the number of an error, or 0. Numbers of errors are sent negated.
use nettool.Base.{
  [], ◌∷◌, ℕ, suc, ℤ, pos, negsuc, ◌≡◌, ◌≢◌, false, ◌+◌, ◌==◌, ◌==ℤ◌, if◌then◌else◌, arith, inl,
  inr, Bool-cases,
}
use nettool.Netlink.Headers.{nlmsg_error}
use nettool.Netlink.System.{Kernel, Trace, printed, text}
use nettool.Library.Exchange.{switch_error}

pub data Verdict : Type 0 where
  no_answer done no_address not_permitted other_error : Verdict

-- A message of this type with this error says so. EPERM is 1, EADDRNOTAVAIL 99.
pub data Says (type : ℕ) (error : ℤ) : Verdict → Type 0 where
  says_nothing : type ≢ nlmsg_error → Says type error no_answer
  says_done : type ≡ nlmsg_error → error ≡ pos 0 → Says type error done
  says_no_address : type ≡ nlmsg_error → error ≡ negsuc 98 → Says type error no_address
  says_not_permitted : type ≡ nlmsg_error → error ≡ negsuc 0 → Says type error not_permitted
  says_other :
      type ≡ nlmsg_error
      → error ≢ pos 0
      → error ≢ negsuc 98
      → error ≢ negsuc 0
      → Says type error other_error

abbrev pub choose : {A : Type 0} → Verdict → A → A → A → A → A → A
choose no_answer success failed denied other nothing = nothing
choose done success failed denied other nothing = success
choose no_address success failed denied other nothing = failed
choose not_permitted success failed denied other nothing = denied
choose other_error success failed denied other nothing = other

abbrev pub Chooses : Type 0 → ℕ → ℤ → Verdict → Type 0
Chooses A type error v =
    (success failed denied other nothing : A)
    → (if type == nlmsg_error then switch_error error success failed denied other else nothing)
      ≡ choose v success failed denied other nothing

-- A number that is not negative is none of the negated errors.
pos_other : (m n : ℕ) → m + suc n == 0 ≡ false
pos_other m n = ground arith

neg_other : (m : ℕ) → negsuc m ==ℤ pos 0 ≡ false
neg_other m = ground arith

switch_error-Says :
    (A : Type 0) (type : ℕ) (error : ℤ)
    → type ≡ nlmsg_error
    → (v : Verdict) × Says type error v × Chooses A type error v
switch_error-Says A type (pos m) e = elim (Bool-cases (m + 0 == 0)) [
  | inl hit ↦ (done, says_done e (ground arith), λ a b c d n. rw (e, hit))
  | inr miss ↦ (
    other_error,
    says_other e (λ f. ground arith) (λ f. ground arith) (λ f. ground arith),
    λ a b c d n. rw (e, miss, pos_other m 98, pos_other m 0),
  )
]
switch_error-Says A type (negsuc m) e = elim (Bool-cases (0 + 99 == 0 + suc m)) [
  | inl hit ↦ (no_address, says_no_address e (ground arith), λ a b c d n. rw (e, neg_other m, hit))
  | inr miss ↦ elim (Bool-cases (0 + 1 == 0 + suc m)) [
    | inl hit ↦ (
      not_permitted,
      says_not_permitted e (ground arith),
      λ a b c d n. rw (e, neg_other m, miss, hit),
    )
    | inr miss0 ↦ (
      other_error,
      says_other e (λ f. ground arith) (λ f. ground arith) (λ f. ground arith),
      λ a b c d n. rw (e, neg_other m, miss, miss0),
    )
  ]
]

-- The test of the type and the `switch` of the code take the case that the reply says.
pub reply-Says :
    (A : Type 0) (type : ℕ) (error : ℤ) → (v : Verdict) × Says type error v × Chooses A type error v
reply-Says A type error = elim (Bool-cases (type == nlmsg_error)) [
  | inl hit ↦ switch_error-Says A type error (ground arith)
  | inr miss ↦ (no_answer, says_nothing (λ e. ground arith), λ a b c d n. rw miss)
]

-- The line that ip_del, gateway_add and gateway_del print.
abbrev pub plain_lines : Kernel → Verdict → ℤ → Trace → Trace
plain_lines k no_answer error t = t
plain_lines k done error t = printed "Success\n" [] ∷ t
plain_lines k no_address error t = printed "Failed\n" [] ∷ t
plain_lines k not_permitted error t = printed "Permission denied\n" [] ∷ t
plain_lines k other_error error t = printed "%s\n" (text (k.strerror error) ∷ []) ∷ t
