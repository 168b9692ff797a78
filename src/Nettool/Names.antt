-- ===== src/Nettool/Names.antt =====
-- The tables of names of message types and of attributes in nettool/src/main_nettool.c.
use Prim.Native.String.{String}
use nettool.Base.{ℕ, ◌≡◌, refl, ◌==◌, if◌then◌else◌, ltb, Option, some, none, List, [], ◌∷◌}

-- An array of texts, all empty at first, behind the calls of `strcpy` in turn.
abbrev pub set_names : List (ℕ × String) → (ℕ → String) → ℕ → String
set_names [] names = names
set_names ((i, name) ∷ rest) names = set_names rest (λ j. if j == i then name else names j)

-- gArray_RTM_Type behind SetArrayRTMTypes; the first two entries are the same.
abbrev pub rtm_names : ℕ → String
rtm_names =
    set_names
      ((16, "RTM_BASE")
        ∷ (16, "RTM_NEWLINK")
        ∷ (17, "RTM_DELLINK")
        ∷ (18, "RTM_GETLINK")
        ∷ (19, "RTM_SETLINK")
        ∷ (20, "RTM_NEWADDR")
        ∷ (21, "RTM_DELADDR")
        ∷ (22, "RTM_GETADDR")
        ∷ (24, "RTM_GETADDR")
        ∷ (25, "RTM_DELROUTE")
        ∷ (26, "RTM_GETROUTE")
        ∷ (28, "RTM_NEWNEIGH")
        ∷ (29, "RTM_DELNEIGH")
        ∷ (30, "RTM_GETNEIGH")
        ∷ (52, "RTM_NEWPREFIX")
        ∷ (80, "RTM_NEWNETCONF")
        ∷ (82, "RTM_GETNETCONF")
        ∷ [])
      (λ i. "")

-- gArray_IFA_Type behind SetArrayRTMTypes
abbrev pub ifa_names : ℕ → String
ifa_names =
    set_names
      ((0, "IFA_UNSPEC")
        ∷ (1, "IFA_ADDRESS")
        ∷ (2, "IFA_LOCAL")
        ∷ (3, "IFA_LABEL")
        ∷ (4, "IFA_BROADCAST")
        ∷ (5, "IFA_ANYCAST")
        ∷ (6, "IFA_CACHEINFO")
        ∷ (7, "IFA_MULTICAST")
        ∷ (8, "IFA_FLAGS")
        ∷ [])
      (λ i. "")

-- getRTM_Type: the index is the local variable `ii`, which stays 0; RTM_MAX is above it.
unfoldable pub get_rtm_type : ℕ → String
get_rtm_type type = let ii : ℕ = 0 in rtm_names ii

-- getIFA_Type: a null pointer from `__IFA_MAX` on.
unfoldable pub get_ifa_type : ℕ → ℕ → Option String
get_ifa_type ifa_max type = if ltb type ifa_max then some (ifa_names type) else none

-- The name that getRTM_Type answers is empty for every type of message, also for those that the
-- table names.
pub get_rtm_type-empty :
    (type : ℕ)
    → (get_rtm_type type ≡ "") × (rtm_names 20 ≡ "RTM_NEWADDR") × (rtm_names 24 ≡ "RTM_GETADDR")
unfolding get_rtm_type
get_rtm_type-empty type = (refl, refl, refl)
