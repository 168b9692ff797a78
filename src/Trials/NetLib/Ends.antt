-- ===== src/Trials/NetLib/Ends.antt =====
-- Net_1 ends, whatever its reply holds.
use Prim.Native.String.{String}
use nettool.Base.{
  ℕ, zero, suc, ℤ, pos, negsuc, pos_part, neg_part, minus_one, ◌+◌, ◌-ℤ◌, ◌≤◌, ◌<◌, ◌≡◌, ◌∙◌, refl,
  ◌==ℤ◌, inl, inr, Bool, Bool-cases, true, false, not, ◌||◌, ltb, ltb_ℤ, if◌then◌else◌, Option,
  some, none, [], ◌∷◌, arith,
}
use nettool.Netlink.Headers.{
  align, nlmsg_data, nlmsg_space, attributes_after, to_int, to_size_t, sizeof_nlmsghdr,
  sizeof_ifaddrmsg,
}
use nettool.Netlink.Buffer.{Buf, nlmsg_len, ifa_index, zeros}
use nettool.Netlink.Messages.{nlmsg_ok}
use nettool.Netlink.Attributes.{for_each_attribute-Within}
use nettool.Netlink.Finishes.{Finishes, finished, bind-Finishes, go_on}
use nettool.Netlink.System.{
  Kernel, Prog, Trace, number, printed, print, printed_error, print_error, pure, ◌>>◌, opened, sent,
  received,
}
use nettool.Trials.NetLib.Dump.{
  printed_all, net_1_request, print_attribute, print_address, net_1_messages, net_1,
}

printed_all-some :
    (o : Option Trace) (s : Trace) → o ≡ some s → (t : Trace) × (printed_all o ≡ some (tt, t))
printed_all-some none s e = absurd (ground arith)
printed_all-some (some s') s e = (s', refl)

print_address-Finishes : (b : Buf) (at : ℕ) (t : Trace) → Finishes (print_address b at) t
unfolding print_address
print_address-Finishes b at t =
    let ifa = nlmsg_data at in
    let len = to_int (b.word at nlmsg_len) -ℤ pos (nlmsg_space sizeof_ifaddrmsg) in
    let (ps, run, within) =
      for_each_attribute-Within b Trace (print_attribute b) (suc (pos_part len))
        (attributes_after sizeof_ifaddrmsg ifa) len
        (printed "Index Of Iface= %d\n" (number (to_int (b.word ifa ifa_index)) ∷ []) ∷ t)
        (omega arith) in
    let (t', shown) = printed_all-some _ _ run in finished tt t' shown

-- The statuses that the loop can hold: up to the size of the buffer, and as little below 0 as a
-- length that is rounded up takes it.
abbrev IsStatus : ℤ → Type 0
IsStatus status = (pos_part status ≤ 16384) × (neg_part status ≤ 3)

-- A status or a length that the tests of the loop let pass.
passed :
    (status len : ℤ)
    → ltb_ℤ (len -ℤ pos 16) (pos 0) ≡ false
    → ltb_ℤ status len ≡ false
    → (16 ≤ pos_part len) × (neg_part status + pos_part len ≤ pos_part status)
unfolding ◌-ℤ◌
passed status len a b = ground arith

next-IsStatus :
    (status : ℤ) (len : ℕ)
    → IsStatus status
    → 16 ≤ len
    → neg_part status + len ≤ pos_part status
    → IsStatus (status -ℤ pos (align len))
      × (pos_part (status -ℤ pos (align len)) + 16 ≤ pos_part status)
unfolding ◌-ℤ◌
next-IsStatus status len (h, g) a b = ground arith

answer-Finishes :
    (m : Prog (Unit {0})) (r : ℤ) (t t' : Trace) → m t ≡ some (tt, t') → Finishes (m >> pure r) t
answer-Finishes m r t t' e = bind-Finishes m (λ _. pure r) t tt t' e (finished r t' refl)

line-Finishes : (line : String) (r : ℤ) (t : Trace) → Finishes (print line [] >> pure r) t
line-Finishes line r t = answer-Finishes (print line []) r t (printed line [] ∷ t) refl

-- One round of the loop, with what the rest of it does.
round-Finishes :
    (b : Buf) (at : ℕ) (status : ℤ) (rest : Prog ℤ) (t : Trace) (done refused wrong : Bool)
    → (done ≡ false → refused ≡ false → (t' : Trace) → Finishes rest t')
    → Finishes
        (if done
          then pure (pos 0)
          else if refused
          then print "error\n" [] >> pure minus_one
          else if wrong
          then print "NLMSG not OK\n" [] >> pure (pos 1)
          else print_address b at >> rest)
        t
round-Finishes b at status rest t true refused wrong go = finished (pos 0) t refl
round-Finishes b at status rest t false true wrong go = line-Finishes "error\n" minus_one t
round-Finishes b at status rest t false false true go = line-Finishes "NLMSG not OK\n" (pos 1) t
round-Finishes b at status rest t false false false go =
    go_on (print_address b at) (λ _. rest) t (print_address-Finishes b at t) (λ _. go refl refl)

either : (a b : Bool) → a || b ≡ false → (a ≡ false) × (b ≡ false)
either true b e = absurd (ground arith)
either false b e = (refl, e)

net_1_messages-Finishes :
    (fuel : ℕ) (b : Buf) (at : ℕ) (status : ℤ) (t : Trace)
    → IsStatus status
    → pos_part status < fuel
    → Finishes (net_1_messages fuel b at status) t
unfolding net_1_messages
net_1_messages-Finishes zero b at status t h enough = absurd (omega arith)
net_1_messages-Finishes (suc fuel) b at status t h enough =
    let len = to_int (b.word at nlmsg_len) in
    let step = align (pos_part len) in
    round-Finishes b at status (net_1_messages fuel b (at + step) (status -ℤ pos step)) t
      (not (ltb sizeof_nlmsghdr (to_size_t status)))
      (ltb_ℤ (len -ℤ pos sizeof_nlmsghdr) (pos 0) || ltb_ℤ status len) (not (nlmsg_ok b at status))
      (λ d r t'.
        let (short, beyond) = either _ _ r in
        let (large, fits) = passed status len short beyond in
        let (next, less) = next-IsStatus status (pos_part len) h large fits in
        net_1_messages-Finishes fuel b (at + step) (status -ℤ pos step) t' next (omega arith))

-- What follows recv, with the answers of the tests.
received-Finishes :
    (rest : Prog ℤ) (t : Trace) (failed nothing : Bool)
    → (failed ≡ false → Finishes rest t)
    → Finishes
        (if failed
          then print_error "recv" [] >> pure (pos 1)
          else if nothing
          then print "EOF\n" [] >> pure (pos 1)
          else rest)
        t
received-Finishes rest t true nothing go = finished (pos 1) (printed_error "recv" [] ∷ t) refl
received-Finishes rest t false true go = line-Finishes "EOF\n" (pos 1) t
received-Finishes rest t false false go = go refl

same-Finishes : (m n : Prog ℤ) (t u : Trace) → m t ≡ n u → Finishes n u → Finishes m t
same-Finishes m n t u e (finished a t' f) = finished a t' (e ∙ f)

small-IsStatus :
    (status : ℤ) → pos_part status ≤ 16384 → ltb_ℤ status (pos 0) ≡ false → IsStatus status
small-IsStatus (pos n) h e = (h, omega arith)
small-IsStatus (negsuc m) h e = absurd (ground arith)

-- recv receives at most the 16384 bytes of the buffer. Then Net_1 returns, whatever the bytes are:
-- with more fuel than the buffer has bytes its loop ends.
pub net_1-Finishes :
    (k : Kernel) (fuel : ℕ) (t : Trace)
    → ((t' : Trace) → pos_part (k.recvmsg t').0 ≤ 16384)
    → 16384 < fuel
    → Finishes (net_1 k fuel) t
unfolding net_1
net_1-Finishes k fuel t h enough =
    let fd = k.socket t in
    let b = (net_1_request zeros).1 in
    let after : Trace = sent fd b (b.word 0 nlmsg_len) ∷ opened fd ∷ t in
    let (status, buf) = k.recvmsg after in
    let reply : Trace = received fd status buf ∷ after in
    let bound = h after in
    elim (Bool-cases (ltb_ℤ (k.sendmsg (opened fd ∷ t)) (pos 0))) [
      | inl e ↦ finished (pos 1) (printed_error "send" [] ∷ after) (rw e refl)
      | inr e ↦ same-Finishes (net_1 k fuel) _ t reply (rw e refl) (
          received-Finishes (net_1_messages fuel buf 0 status) reply (ltb_ℤ status (pos 0))
            (status ==ℤ pos 0)
            (λ f.
              net_1_messages-Finishes fuel buf 0 status reply (small-IsStatus status bound f)
                (omega arith)))
    ]
