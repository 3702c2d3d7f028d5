-- ===== src/Witnesses/Holding.antt =====
-- A lock that two other processes try to take.
use django_base_x.Prelude.{
  ℕ, ◌+◌, ◌*◌, ◌<◌, ◌≡◌, refl, String, Bool, true, false, some, List, [], ◌∷◌, arith,
}
use django_base_x.Locks.Store.{Store, get, entry_for, acquire}
use django_base_x.Locks.Exclusion.{Op, run, acquire-exclusive}

abbrev taken : Store
taken = entry_for "drain" "h1" 60 100 ∷ []

abbrev rivals : List Op
rivals = Op.acquiring "drain" "h2" 60 200 201 ∷ Op.releasing "drain" "h3" 300 ∷ []

takes : acquire "drain" "h1" 60 99 100 [] ≡ (true, taken)
unfolding acquire django_base_x.Prelude.first_where django_base_x.Prelude.filter_by
takes = refl

acquire-exclusive_example :
    (get "drain" (run rivals taken) ≡ some (entry_for "drain" "h1" 60 100))
    × ((other : String) (ttl' now' then' : ℕ)
        → now' < 100 + 60 * 1000
        → acquire "drain" other ttl' now' then' (run rivals taken) ≡ (false, run rivals taken))
acquire-exclusive_example =
    acquire-exclusive "drain" "h1" 60 99 100 [] taken rivals takes
      ((refl, omega arith), ((refl, omega arith), tt))
