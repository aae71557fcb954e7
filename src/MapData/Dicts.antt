-- ===== src/MapData/Dicts.antt =====
-- Dicts filled item by item, in the order of another dict.
use opentele.Prelude.{
  ℕ, ◌≡◌, refl, sym, ap, ◌∙◌, Bool, true, false, append-nil, [], ◌∷◌, ◌++◌, append_assoc, arith,
  ◌==◌,
}
use opentele.MapData.{MapData, Dict, set_item}
use opentele.MapData.Read.{add_draft, add_cursor, add_bot_storage}
use opentele.MapData.Fields.{add_all}

-- The keys of the items are different from `k`.
abbrev pub Avoids : {V : Type 0} → ℕ → Dict V → Type 0
Avoids k [] = Unit
Avoids k ((j, v) ∷ d) = ((j == k) ≡ false) × Avoids k d

-- No key stands twice: what makes a list of items a dict.
abbrev pub IsDict : {V : Type 0} → Dict V → Type 0
IsDict [] = Unit
IsDict ((k, v) ∷ d) = Avoids k d × IsDict d

unfoldable pub set_items : {V : Type 0} → Dict V → Dict V → Dict V
set_items [] acc = acc
set_items ((k, v) ∷ d) acc = set_items d (set_item k v acc)

set_item_fresh :
    {V : Type 0} (k : ℕ) (v : V) (acc : Dict V)
    → Avoids k acc
    → set_item k v acc ≡ acc ++ (k, v) ∷ []
unfolding set_item
set_item_fresh k v [] h = refl
set_item_fresh k v ((j, w) ∷ acc) h = rw h.0 (ap (λ t. (j, w) ∷ t) (set_item_fresh k v acc h.1))

-- Each key of `d` is fresh for `acc`.
abbrev AllFresh : {V : Type 0} → Dict V → Dict V → Type 0
AllFresh [] acc = Unit
AllFresh ((k, v) ∷ d) acc = Avoids k acc × AllFresh d acc

==_comm : (a b : ℕ) → (a == b) ≡ (b == a)
==_comm a b = ground arith

Avoids-snoc :
    {V : Type 0} (j k : ℕ) (v : V) (acc : Dict V)
    → Avoids j acc
    → (k == j) ≡ false
    → Avoids j (acc ++ (k, v) ∷ [])
Avoids-snoc j k v [] h e = (e, tt)
Avoids-snoc j k v ((i, w) ∷ acc) h e = (h.0, Avoids-snoc j k v acc h.1 e)

AllFresh-snoc :
    {V : Type 0} (k : ℕ) (v : V) (d acc : Dict V)
    → AllFresh d acc
    → Avoids k d
    → AllFresh d (acc ++ (k, v) ∷ [])
AllFresh-snoc k v [] acc h a = tt
AllFresh-snoc k v ((j, w) ∷ d) acc h a =
    (Avoids-snoc j k v acc h.0 (==_comm k j ∙ a.0), AllFresh-snoc k v d acc h.1 a.1)

set_items-append :
    {V : Type 0} (d acc : Dict V) → IsDict d → AllFresh d acc → set_items d acc ≡ acc ++ d
unfolding set_items
set_items-append [] acc h f = sym (append-nil acc)
set_items-append ((k, v) ∷ d) acc h f = rw (set_item_fresh k v acc f.0) (
    set_items-append d (acc ++ (k, v) ∷ []) h.1 (AllFresh-snoc k v d acc f.1 h.0)
    ∙ append_assoc acc ((k, v) ∷ []) d)

AllFresh-nil : {V : Type 0} (d : Dict V) → AllFresh d []
AllFresh-nil [] = tt
AllFresh-nil ((k, v) ∷ d) = (tt, AllFresh-nil d)

-- Filling an empty dict with the items of a dict copies it, in its order.
pub set_items-nil : {V : Type 0} (d : Dict V) → IsDict d → set_items d [] ≡ d
set_items-nil d h = set_items-append d [] h (AllFresh-nil d)

-- The marks of `draftsNotReadMap` and `botStoragesNotReadMap`
unfoldable pub marks : {V : Type 0} → Dict V → Dict Bool
marks [] = []
marks ((k, v) ∷ d) = (k, true) ∷ marks d

Avoids-marks : {V : Type 0} (k : ℕ) (d : Dict V) → Avoids k d → Avoids k (marks d)
unfolding marks
Avoids-marks k [] h = tt
Avoids-marks k ((j, v) ∷ d) h = (h.0, Avoids-marks k d h.1)

pub IsDict-marks : {V : Type 0} (d : Dict V) → IsDict d → IsDict (marks d)
unfolding marks
IsDict-marks [] h = tt
IsDict-marks ((k, v) ∷ d) h = (Avoids-marks k d h.0, IsDict-marks d h.1)

-- What the loops over pairs do to the fields.
pub add_all-drafts :
    (d : Dict ℕ) (m : MapData)
    → add_all add_draft d m ≡ record m {
      drafts_map = set_items d m.drafts_map;
      drafts_not_read_map = set_items (marks d) m.drafts_not_read_map;
    }
unfolding add_all set_items marks
add_all-drafts [] m = refl
add_all-drafts ((k, v) ∷ d) m = add_all-drafts d (add_draft (k, v) m)

pub add_all-cursors :
    (d : Dict ℕ) (m : MapData)
    → add_all add_cursor d m ≡ record m { draft_cursors_map = set_items d m.draft_cursors_map }
unfolding add_all set_items
add_all-cursors [] m = refl
add_all-cursors ((k, v) ∷ d) m = add_all-cursors d (add_cursor (k, v) m)

pub add_all-bot_storages :
    (d : Dict ℕ) (m : MapData)
    → add_all add_bot_storage d m ≡ record m {
      bot_storages_map = set_items d m.bot_storages_map;
      bot_storages_not_read_map = set_items (marks d) m.bot_storages_not_read_map;
    }
unfolding add_all set_items marks
add_all-bot_storages [] m = refl
add_all-bot_storages ((k, v) ∷ d) m = add_all-bot_storages d (add_bot_storage (k, v) m)
