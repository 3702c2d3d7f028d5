-- ===== src/Outbox/Moves.antt =====
-- The life of an outbox row: the diagram of its status.
use django_base_x.Prelude.{
  ◌⊎◌, ◌≡◌, refl, Bool, true, false, List, [], ◌∷◌, ◌++◌, inl, inr, Bool-cases, update_where, All,
}
use django_base_x.Outbox.Message.{
  Message, Db, Status, pending, leased, retry, sent, skipped, failed, unknown,
}
use django_base_x.Outbox.Sound.{System, Sound}

-- sent and skipped: nothing is owed any more
abbrev pub is_final : Status → Bool
is_final sent = true
is_final skipped = true
is_final _ = false

-- The edges between two different statuses.
abbrev pub edge : Status → Status → Bool
edge pending leased = true
edge retry leased = true
edge retry sent = true
edge leased retry = true
edge leased sent = true
edge leased skipped = true
edge leased failed = true
edge leased unknown = true
edge unknown sent = true
edge unknown retry = true
edge failed sent = true
edge _ _ = false

-- A row either stays as it is, or keeps its id and goes along an edge.
abbrev pub Move : Message → Message → Type 0
Move x y = (x ≡ y) ⊎ ((x.id ≡ y.id) × (edge x.status y.status ≡ true))

-- Every row of the first table is in the second, in order, after at most one move.
abbrev pub Moves : List Message → List Message → Type 0
Moves [] ys = Unit
Moves (x ∷ xs) [] = ⊥
Moves (x ∷ xs) (y ∷ ys) = Move x y × Moves xs ys

pub Moves-refl : (xs : List Message) → Moves xs xs
Moves-refl [] = tt
Moves-refl (x ∷ xs) = (inl refl, Moves-refl xs)

pub Moves-append : (xs ys : List Message) → Moves xs (xs ++ ys)
Moves-append [] ys = tt
Moves-append (x ∷ xs) ys = (inl refl, Moves-append xs ys)

pub Moves-update_where :
    (p : Message → Bool) (f : Message → Message)
    → ((m : Message) → p m ≡ true → (m.id ≡ (f m).id) × (edge m.status (f m).status ≡ true))
    → (xs : List Message) → Moves xs (update_where p f xs)
unfolding update_where
Moves-update_where p f along [] = tt
Moves-update_where p f along (x ∷ xs) = elim (Bool-cases (p x)) [
  | inl t ↦ rw t (inr (along x t), Moves-update_where p f along xs)
  | inr n ↦ rw n (inl refl, Moves-update_where p f along xs)
]

-- The same, where what `p` selects is known row by row.
pub Moves-update_where_on :
    (p : Message → Bool) (f : Message → Message) (xs : List Message)
    → All (λ m. p m ≡ true → (m.id ≡ (f m).id) × (edge m.status (f m).status ≡ true)) xs
    → Moves xs (update_where p f xs)
unfolding update_where
Moves-update_where_on p f [] h = tt
Moves-update_where_on p f (x ∷ xs) h = elim (Bool-cases (p x)) [
  | inl t ↦ rw t (inr (h.0 t), Moves-update_where_on p f xs h.1)
  | inr n ↦ rw n (inl refl, Moves-update_where_on p f xs h.1)
]

-- What a transaction on the database of `s` comes to: a sound system, and rows that moved along
-- the diagram.
pub record Good (s : System) (db : Db) : Type 0 where
  pub sound : Sound (record s { db = db })
  pub moves : Moves s.db.rows db.rows
