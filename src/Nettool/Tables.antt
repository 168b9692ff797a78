-- ===== src/Nettool/Tables.antt =====
-- The table of address families of nettool/src/main_nettool.c.
use Prim.Native.String.{String}
use nettool.Base.{ℕ, zero, suc, ◌+◌, ◌==◌, if◌then◌else◌, List, [], ◌∷◌}

-- struct sArrayItem
pub record ArrayItem : Type 0 where
  pub id : ℕ
  pub name : String

-- struct sArrayFamily: its array is a function of the place.
pub record ArrayFamily : Type 0 where
  pub number : ℕ
  pub array : ℕ → ArrayItem
  pub max : ℕ

-- gStringError
abbrev pub string_error : String
string_error = "ERROR"

-- ArraySetItem
abbrev pub array_set_item : ArrayFamily → ℕ → String → ArrayFamily
array_set_item a id name = record a {
  number = suc a.number;
  array = λ i. if i == a.number then (record { id = id; name = name }) else a.array i;
}

-- The loop of ArrayFindItem: `left` rounds from place `ii` on.
unfoldable pub find_item_loop : ArrayFamily → ℕ → ℕ → ℕ → String
find_item_loop a id zero ii = string_error
find_item_loop a id (suc left) ii =
    let rest = find_item_loop a id left (suc ii) in
    if (a.array ii).id == id then (a.array ii).name else rest

-- ArrayFindItem
abbrev pub array_find_item : ArrayFamily → ℕ → String
array_find_item a id = find_item_loop a id a.max 0

-- Calls of ArraySetItem in turn.
abbrev pub set_items : ArrayFamily → List (ℕ × String) → ArrayFamily
set_items a [] = a
set_items a ((id, name) ∷ items) = set_items (array_set_item a id name) items

-- The calls of setArrayAddressFamily, the numbers being those of <sys/socket.h>; the number of
-- AF_MAX depends on its version.
abbrev pub family_items : ℕ → List (ℕ × String)
family_items pf_max =
    (0, "AF_UNSPEC")
    ∷ (0, "AF_UNSPEC")
    ∷ (1, "AF_LOCAL")
    ∷ (1, "AF_UNIX")
    ∷ (1, "AF_FILE")
    ∷ (2, "AF_INET")
    ∷ (3, "AF_AX25")
    ∷ (4, "AF_IPX")
    ∷ (5, "AF_APPLETALK")
    ∷ (6, "AF_NETROM")
    ∷ (7, "AF_BRIDGE")
    ∷ (8, "AF_ATMPVC")
    ∷ (9, "AF_X25")
    ∷ (10, "AF_INET6")
    ∷ (11, "AF_ROSE")
    ∷ (12, "AF_DECnet")
    ∷ (13, "AF_NETBEUI")
    ∷ (14, "AF_SECURITY")
    ∷ (15, "AF_KEY")
    ∷ (16, "AF_NETLINK")
    ∷ (16, "AF_ROUTE")
    ∷ (17, "AF_PACKET")
    ∷ (18, "AF_ASH")
    ∷ (19, "AF_ECONET")
    ∷ (20, "AF_ATMSVC")
    ∷ (21, "AF_RDS")
    ∷ (22, "AF_SNA")
    ∷ (23, "AF_IRDA")
    ∷ (24, "AF_PPPOX")
    ∷ (25, "AF_WANPIPE")
    ∷ (26, "AF_LLC")
    ∷ (29, "AF_CAN")
    ∷ (30, "AF_TIPC")
    ∷ (31, "AF_BLUETOOTH")
    ∷ (32, "AF_IUCV")
    ∷ (33, "AF_RXRPC")
    ∷ (34, "AF_ISDN")
    ∷ (35, "AF_PHONET")
    ∷ (36, "AF_IEEE802154")
    ∷ (37, "AF_CAIF")
    ∷ (38, "AF_ALG")
    ∷ (39, "AF_NFC")
    ∷ (40, "AF_VSOCK")
    ∷ (pf_max, "AF_MAX")
    ∷ []

-- setArrayAddressFamily, over a structure of zeros; ARRAY_ADDRESS_FAMILY_MAX is PF_MAX + 3.
unfoldable pub set_array_address_family : ℕ → ArrayFamily
set_array_address_family pf_max =
    set_items (record { number = 0; array = λ i. record { id = 0; name = "" }; max = pf_max + 3 })
      (family_items pf_max)
