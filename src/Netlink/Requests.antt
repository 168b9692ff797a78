-- ===== src/Netlink/Requests.antt =====
-- What a receiver of netlink messages reads in a request, by netlink(7) and rtnetlink(7): a
-- header, a structure of a kind that the type of the message tells, and attributes behind it.
use nettool.Base.{ℕ, suc, ℤ, pos, ◌-ℤ◌, Option, none, some, List, [], ◌∷◌, ◌++◌, if◌then◌else◌}
use nettool.Netlink.Headers.{nlmsg_data, nlmsg_space, attributes_after, rta_data}
use nettool.Netlink.Buffer.{Buf, nlmsg_len, nlmsg_type, nlmsg_flags, rta_type, payload}
use nettool.Netlink.Messages.{nlmsg_ok}
use nettool.Netlink.Attributes.{for_each_attribute}

-- Type and payload of each attribute between `at` and `at + len`.
unfoldable pub attributes : Buf → ℕ → ℤ → Option (List (ℕ × ℕ))
attributes b at len =
    for_each_attribute b (λ p l. l ++ ((b.word p rta_type, b.word (rta_data p) payload) ∷ []))
      (suc (b.word 0 nlmsg_len)) at len []

pub record Request (A : Type 0) : Type 0 where
  pub type : ℕ
  pub flags : ℕ
  pub body : A
  pub attached : Option (List (ℕ × ℕ))

-- The request in the `nlmsg_len` bytes that are sent, if they hold a whole message: `read` takes
-- the structure of `size` bytes behind the header.
unfoldable pub sent_request : {A : Type 0} → ℕ → (Buf → ℕ → A) → Buf → Option (Request A)
sent_request size read b =
    if nlmsg_ok b 0 (pos (b.word 0 nlmsg_len))
    then some (record {
      type = b.word 0 nlmsg_type;
      flags = b.word 0 nlmsg_flags;
      body = read b (nlmsg_data 0);
      attached =
          attributes b (attributes_after size (nlmsg_data 0))
            (pos (b.word 0 nlmsg_len) -ℤ pos (nlmsg_space size));
    })
    else none
