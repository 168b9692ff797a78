-- ===== src/Library/Link/Notify.antt =====
-- nettool_link_notify of libnettool/src/ip_link.c over a series of calls.
use nettool.Base.{
  ℕ, ℤ, pos, negsuc, minus_one, ◌≡◌, ◌≢◌, ◌≤◌, ◌+◌, refl, some, false, List, [], ◌∷◌, ◌==ℤ◌, arith,
  Bool-cases, inl, inr, ◌⊎◌,
}
use nettool.Netlink.System.{Kernel, Prog, Trace, Event, started_thread, allocated, pure, ◌>>=◌}
use nettool.Library.Link.Sessions.{Notify, is_refused, nettool_link_notify}

-- The threads that a trace tells of.
abbrev is_thread : Event → ℕ
is_thread (started_thread r) = 1
is_thread _ = 0

abbrev pub threads : Trace → ℕ
threads [] = 0
threads (e ∷ t) = is_thread e + threads t

-- Calls in turn, with g_ModuleInit before and after.
unfoldable pub notify_all : Kernel → List Notify → ℕ → Prog ℕ
notify_all k [] module_init = pure module_init
notify_all k (a ∷ calls) module_init = do
  (retcode, module_init) ← nettool_link_notify k a module_init
  notify_all k calls module_init

is_nonzero : (r : ℤ) → r ≢ pos 0 → r ==ℤ pos 0 ≡ false
is_nonzero (pos n) h = ground arith
is_nonzero (negsuc n) h = ground arith

-- The first call starts the thread and later ones do not.
abbrev Inv : ℕ → Trace → Type 0
Inv module_init t = ((module_init ≡ 0) × (threads t ≡ 0)) ⊎ ((module_init ≡ 1) × (threads t ≤ 1))

notify-Inv :
    (k : Kernel) (a : Notify) (m : ℕ) (t : Trace)
    → Inv m t
    → (r : ℤ) × (m' : ℕ) × (t' : Trace) × (nettool_link_notify k a m t ≡ some ((r, m'), t'))
      × Inv m' t'
unfolding nettool_link_notify
notify-Inv k a m t inv = elim (Bool-cases (is_refused a)) [
  | inl refused ↦ (minus_one, m, t, rw refused, inv)
  | inr valid ↦
      let t' = started_thread (k.pthread_create t) ∷ t in
      elim inv [
        | inl (unset, none_yet) ↦ elim (Bool-cases (k.pthread_create t ==ℤ pos 0)) [
          | inl up ↦ (pos 0, 1, allocated ∷ t', rw (valid, unset, up), inr (refl, omega arith))
          | inr down ↦ (k.pthread_create t, 1, t', rw (valid, unset, down), inr (refl, omega arith))
        ]
        | inr (set, few) ↦ (pos 0, 1, allocated ∷ t, rw (valid, set), inr (refl, omega arith))
      ]
]

notify_all-Inv :
    (k : Kernel) (calls : List Notify) (m : ℕ) (t : Trace)
    → Inv m t
    → (m' : ℕ) × (t' : Trace) × (notify_all k calls m t ≡ some (m', t')) × Inv m' t'
unfolding notify_all
notify_all-Inv k [] m t inv = (m, t, refl, inv)
notify_all-Inv k (a ∷ calls) m t inv =
    let (r, m', t', run, inv') = notify-Inv k a m t inv in
    let (m'', t'', run', inv'') = notify_all-Inv k calls m' t' inv' in
    (m'', t'', rw (run, run'), inv'')

-- A series of calls of nettool_link_notify, from the start of the program, ends and starts at
-- most one thread.
pub notify_all-threads :
    (k : Kernel) (calls : List Notify) (t : Trace)
    → threads t ≡ 0
    → (m : ℕ) × (t' : Trace) × (notify_all k calls 0 t ≡ some (m, t')) × (threads t' ≤ 1)
notify_all-threads k calls t fresh =
    let (m, t', run, inv) = notify_all-Inv k calls 0 t (inl (refl, fresh)) in
    (m, t', run, elim inv [ inl (unset, nothing) ↦ omega arith | inr (set, few) ↦ few ])

-- When the thread cannot be started, the first call says so, and a second call with the same
-- arguments answers 0 and starts none.
pub nettool_link_notify-retry :
    (k : Kernel) (a : Notify) (t : Trace)
    → is_refused a ≡ false
    → k.pthread_create t ≢ pos 0
    → let t' = started_thread (k.pthread_create t) ∷ t in
      (nettool_link_notify k a 0 t ≡ some ((k.pthread_create t, 1), t'))
      × (nettool_link_notify k a 1 t' ≡ some ((pos 0, 1), allocated ∷ t'))
unfolding nettool_link_notify
nettool_link_notify-retry k a t valid down =
    let down' = is_nonzero (k.pthread_create t) down in (rw (valid, down'), rw valid)
