-- ===== src/Outbox/Steps.antt =====
-- Interleavings of the outbox's transactions, each of them one step: any process may take any step
-- at any time, on any clock reading. A rollback is no step. A claim's stamp may follow a read that
-- other steps have made stale: `row` is any message. `Reach` starts from a system with no row.
use django_base_x.Prelude.{
  true, inl, inr, ◌∙◌, ℕ, ◌≡◌, String, Bool, Option, some, List, [], ◌∷◌, All, count_where, arith,
  subst, sym,
}
use mathlib.Core.List.{Memᴰ}
use django_base_x.Prelude.Result.{ok}
use django_base_x.Values.{Value, Key}
use django_base_x.Outbox.Outcome.{Outcome}
use django_base_x.Outbox.Message.{Message, Db, Status}
use django_base_x.Outbox.Enqueue.{Connection, enqueue}
use django_base_x.Outbox.Claim.{Claim, stamp_row}
use django_base_x.Outbox.Settle.{Settled, settle}
use django_base_x.Outbox.Recovery.{recover_one}
use django_base_x.Outbox.Resolve.{Action, resolve_unknown}
use django_base_x.Outbox.Drain.{Setup}
use django_base_x.Outbox.Moves.{Moves, is_final, edge}
use django_base_x.Outbox.Invariant.{Fits}
use django_base_x.Outbox.Sound.{System, Sound}
use django_base_x.Outbox.Preserve.Enqueue.{TopicOk, enqueue-Good}
use django_base_x.Outbox.Preserve.Stamp.{Fresh, stamp_row-Sound, stamp_row-Moves}
use django_base_x.Outbox.Preserve.Settle.{settle-Good}
use django_base_x.Outbox.Preserve.Park.{recover_one-Good}
use django_base_x.Outbox.Preserve.Decide.{resolve_unknown-Good}

-- what the outbox starts from
abbrev pub empty_system : System
empty_system = record {
  db = record { rows = []; next_id = 1; findings = record { rows = []; next_id = 1 } };
  claims = [];
}

pub data Step (u : Setup) (s t : System) : Type 0 where
  enqueued :
      (topic key : String) (payload : List (Key × Value)) (delay now : ℕ) (c d : Connection)
      → enqueue u.topics topic key payload delay now c ≡ ok d
      → c.db ≡ s.db
      → t ≡ record s { db = d.db }
      → Step u s t
  stamped :
      (row : Message) (token : String) (until : ℕ) (c : Claim) (db : Db)
      → Fresh token s.claims
      → stamp_row row token until s.db ≡ ok (some (c, db))
      → t ≡ record { db = db; claims = c ∷ s.claims }
      → Step u s t
  settled :
      (c : Claim) (o : Outcome) (now : ℕ) (r : Settled) (db : Db)
      → Memᴰ c s.claims
      → settle u.scrub u.rand u.kinds u.topics c o now s.db ≡ ok (r, db)
      → t ≡ record s { db = db }
      → Step u s t
  recovered :
      (now pk : ℕ) (b : Bool) (db : Db)
      → recover_one u.rand u.kinds u.topics now pk s.db ≡ ok (b, db)
      → t ≡ record s { db = db }
      → Step u s t
  decided :
      (id : ℕ) (action : Action) (actor : Option ℕ) (note : String) (now : ℕ) (b : Bool) (db : Db)
      → resolve_unknown u.kinds id action actor note now s.db ≡ ok (b, db)
      → t ≡ record s { db = db }
      → Step u s t

pub data Reach (u : Setup) : System → Type 0 where
  start : Reach u empty_system
  next : {s t : System} → Reach u s → Step u s t → Reach u t

All-Memᴰ : (P : Claim → Type 0) (cs : List Claim) (c : Claim) → All P cs → Memᴰ c cs → P c
All-Memᴰ P [] c h m = elim m [ ]
All-Memᴰ P (x ∷ cs) c h (Memᴰ.head e) = subst P (sym e) h.0
All-Memᴰ P (x ∷ cs) c h (Memᴰ.tail m) = All-Memᴰ P cs c h.1 m

Step-both :
    (u : Setup) (s t : System)
    → All TopicOk u.topics
    → Sound s
    → Step u s t
    → Sound t × Moves s.db.rows t.db.rows
Step-both u s t valid h (enqueued topic key payload delay now c d e same made) =
    let g = enqueue-Good u.topics topic key payload delay now c d s.claims valid (rw same h) e in
    rw (made, ← same) (g.sound, g.moves)
Step-both u s t valid h (stamped row token until c db fresh e made) =
    rw made (
      stamp_row-Sound row token until s db c h fresh e,
      stamp_row-Moves row token until s.db db c e,
    )
Step-both u s t valid h (settled c o now r db mine e made) =
    let g =
      settle-Good u.scrub u.rand u.kinds u.topics c o now s r db h
        (All-Memᴰ (λ x. All (Fits x) s.db.rows) s.claims c h.fits mine) e in
    rw made (g.sound, g.moves)
Step-both u s t valid h (recovered now pk b db e made) =
    let g = recover_one-Good u.rand u.kinds u.topics now pk s b db h e in rw made (g.sound, g.moves)
Step-both u s t valid h (decided id action actor note now b db e made) =
    let g = resolve_unknown-Good u.kinds id action actor note now s b db h e in
    rw made (g.sound, g.moves)

start-Sound : Sound empty_system
unfolding count_where
start-Sound = record {
  rows_ok = tt;
  fits = tt;
  below = tt;
  ids = λ k. omega arith;
  keys = λ k. omega arith;
  one_open = record { at_most_one = λ k o i. omega arith };
}

-- In every system that any interleaving of the transactions reaches: no row has made more attempts
-- than its cap, and one that waits has an attempt left; a row has a lease exactly while it is
-- leased, and a sent one is stamped; each outstanding claim agrees with the row it still holds; ids
-- and dedupe keys are unique; and a subject has at most one open finding of a kind.
pub Reach-Sound : (u : Setup) (s : System) → All TopicOk u.topics → Reach u s → Sound s
Reach-Sound u s valid start = start-Sound
Reach-Sound u t valid (next {s = s} r st) = (Step-both u s t valid (Reach-Sound u s valid r) st).0

-- From a reachable system no step deletes a row or changes its id, and a row that a step changes at
-- all goes along an edge of the status diagram; so a `sent` or `skipped` row never changes again.
pub Step-Moves :
    (u : Setup) (s t : System)
    → All TopicOk u.topics
    → Reach u s
    → Step u s t
    → Moves s.db.rows t.db.rows
Step-Moves u s t valid r st = (Step-both u s t valid (Reach-Sound u s valid r) st).1

pub data Run (u : Setup) (s : System) : System → Type 0 where
  stay : Run u s s
  then_step : {t v : System} → Run u s t → Step u t v → Run u s v

Reach-Run : (u : Setup) (s t : System) → Reach u s → Run u s t → Reach u t
Reach-Run u s t r stay = r
Reach-Run u s t r (then_step {t = m} run st) = next (Reach-Run u s m r run) st

no_edge : (a b : Status) → is_final a ≡ true → edge a b ≡ true → ⊥
no_edge Status.sent b f e = ground (arith, f, e)
no_edge Status.skipped b f e = ground (arith, f, e)
no_edge a b f e = cc

final_kept :
    (m : Message) (xs ys : List Message)
    → is_final m.status ≡ true
    → Moves xs ys
    → Memᴰ m xs
    → Memᴰ m ys
final_kept m [] ys f mv h = elim h [ ]
final_kept m (x ∷ xs) [] f mv h = absurd mv
final_kept m (x ∷ xs) (y ∷ ys) f (inl same, rest) (Memᴰ.head e) = Memᴰ.head (e ∙ same)
final_kept m (x ∷ xs) (y ∷ ys) f (inr (ids, along), rest) (Memᴰ.head e) =
    absurd (no_edge x.status y.status (subst (λ (z : Message). is_final z.status ≡ true) e f) along)
final_kept m (x ∷ xs) (y ∷ ys) f (mv, rest) (Memᴰ.tail h) = Memᴰ.tail (final_kept m xs ys f rest h)

-- A message that was sent or skipped is still there, unchanged, after any further steps.
pub Run-final :
    (u : Setup) (s t : System) (m : Message)
    → All TopicOk u.topics
    → Reach u s
    → Run u s t
    → is_final m.status ≡ true
    → Memᴰ m s.db.rows
    → Memᴰ m t.db.rows
Run-final u s t m valid r stay f h = h
Run-final u s t m valid r (then_step {t = v} run st) f h =
    final_kept m v.db.rows t.db.rows f (Step-Moves u v t valid (Reach-Run u s v r run) st)
      (Run-final u s v m valid r run f h)
