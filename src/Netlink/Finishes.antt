-- ===== src/Netlink/Finishes.antt =====
-- Runs that end with an answer.
use nettool.Base.{Bool, true, false, ◌≡◌, if◌then◌else◌, some, arith}
use nettool.Netlink.System.{Prog, Trace, ◌>>=◌}

-- A run gives a result.
pub data Finishes {A : Type 0} (m : Prog A) (t : Trace) : Type 0 where
  finished : (a : A) (t' : Trace) → m t ≡ some (a, t') → Finishes m t

pub if-Finishes :
    {A : Type 0}
    → (c : Bool) (m n : Prog A) (t : Trace) → Finishes m t
    → Finishes n t
    → Finishes (if c then m else n) t
if-Finishes true m n t x y = x
if-Finishes false m n t x y = y

pub if_true-Finishes :
    {A : Type 0}
    → (c : Bool) (m n : Prog A) (t : Trace) → c ≡ true
    → Finishes m t
    → Finishes (if c then m else n) t
if_true-Finishes true m n t e x = x
if_true-Finishes false m n t e x = absurd (ground arith)

pub bind-Finishes :
    {A B : Type 0}
    → (m : Prog A) (f : A → Prog B) (t : Trace) (a : A) (t' : Trace) → m t ≡ some (a, t')
    → Finishes (f a) t'
    → Finishes (m >>= f) t
bind-Finishes m f t a t' e (finished b t'' e') = finished b t'' (rw (e, e'))

pub go_on :
    {A B : Type 0}
    → (m : Prog A) (f : A → Prog B) (t : Trace) → Finishes m t
    → ((a : A) (t' : Trace) → Finishes (f a) t')
    → Finishes (m >>= f) t
go_on m f t (finished a t' e) all = bind-Finishes m f t a t' e (all a t')
