-- ===== src/Audit/Store/Rows.antt =====
-- The stored rows of a case: their order, and the entries that they load as.
use reclaim_rail.Base.{
  ℕ, ◌+◌, ltb, ◌≡◌, refl, sym, ap, subst, ◌∙◌, ok, List, [], ◌∷◌, ◌++◌, all, filter, length, map_ok,
  map_ok-cons, Bool, true, ◌&&◌, arith,
}
use reclaim_rail.Audit.Chain.{ChainEntry, make_chain_entry}
use reclaim_rail.Audit.Store.{AuditTables, of_case, insert_ordered, ordered, case_events}

all-insert_ordered :
    (t : ChainEntry → Bool) (e : ChainEntry) (es : List ChainEntry)
    → all t (insert_ordered e es) ≡ (t e && all t es)
unfolding insert_ordered
all-insert_ordered t e [] = refl
all-insert_ordered t e (f ∷ fs) = ground (arith, all-insert_ordered t e fs)

all-ordered : (t : ChainEntry → Bool) (es : List ChainEntry) → all t (ordered es) ≡ all t es
unfolding ordered
all-ordered t [] = refl
all-ordered t (e ∷ es) = ground (arith, all-insert_ordered t e (ordered es), all-ordered t es)

-- the number of an entry is below the bound
abbrev pub below : ℕ → ChainEntry → Bool
below k e = ltb e.sequence_number k

insert_ordered-append :
    (f e : ChainEntry) (es : List ChainEntry)
    → below e.sequence_number f ≡ true
    → insert_ordered f (es ++ (e ∷ [])) ≡ insert_ordered f es ++ (e ∷ [])
unfolding insert_ordered
insert_ordered-append f e [] h = ground arith
insert_ordered-append f e (g ∷ gs) h = ground (arith, insert_ordered-append f e gs h)

ordered-append :
    (es : List ChainEntry) (e : ChainEntry)
    → all (below e.sequence_number) es ≡ true
    → ordered (es ++ (e ∷ [])) ≡ ordered es ++ (e ∷ [])
unfolding ordered insert_ordered
ordered-append [] e h = refl
ordered-append (f ∷ fs) e h =
    rw (ordered-append fs e (ground arith)) (insert_ordered-append f e (ordered fs) (ground arith))

filter-append :
    (t : ChainEntry → Bool) (es : List ChainEntry) (e : ChainEntry)
    → filter t (es ++ (e ∷ [])) ≡ (filter t es ++ filter t (e ∷ []))
filter-append t [] e = refl
filter-append t (f ∷ fs) e = ground (arith, filter-append t fs e)

pub map_ok-append :
    (es fs : List ChainEntry) (e : ChainEntry)
    → map_ok make_chain_entry es ≡ ok fs
    → make_chain_entry e ≡ ok e
    → map_ok make_chain_entry (es ++ (e ∷ [])) ≡ ok (fs ++ (e ∷ []))
map_ok-append [] fs e h m = ground arith
map_ok-append (g ∷ gs) fs e h m =
    let (y, ys, p, q, r) = map_ok-cons make_chain_entry g gs fs h in
    ground (arith, map_ok-append gs ys e q m)

-- the entries that the rows load as
abbrev pub Loads : List ChainEntry → List ChainEntry → Type 0
Loads [] [] = Unit
Loads (row ∷ rows) (e ∷ es) = (make_chain_entry row ≡ ok e) × Loads rows es
Loads _ _ = ⊥

pub Loads-map_ok :
    (rows es : List ChainEntry) → map_ok make_chain_entry rows ≡ ok es → Loads rows es
Loads-map_ok [] [] h = tt
Loads-map_ok [] (e ∷ es) h = cc
Loads-map_ok (row ∷ rows) es h =
    let (y, ys, q, r, s) = map_ok-cons make_chain_entry row rows es h in
    subst (λ fs. Loads (row ∷ rows) fs) (sym s) (q, Loads-map_ok rows ys r)

all-filter : (t : ChainEntry → Bool) (es : List ChainEntry) → all t (filter t es) ≡ true
all-filter t [] = refl
all-filter t (e ∷ es) = ground (arith, all-filter t es)

pub own_events : (id : ℕ) (db : AuditTables) → all (of_case id) (case_events id db) ≡ true
unfolding case_events
own_events id db =
    all-ordered (of_case id) (filter (of_case id) db.events) ∙ all-filter (of_case id) db.events

pub length-snoc : (es : List ChainEntry) (e : ChainEntry) → length (es ++ (e ∷ [])) ≡ length es + 1
length-snoc [] e = omega arith
length-snoc (f ∷ fs) e = omega (arith, length-snoc fs e)

-- the rows of the case after an insert with a number above them all
pub case_events-append :
    (id : ℕ) (db : AuditTables) (e : ChainEntry)
    → e.recovery_case_id ≡ id
    → all (below e.sequence_number) (case_events id db) ≡ true
    → case_events id (record db { events = db.events ++ (e ∷ []) }) ≡ case_events id db ++ (e ∷ [])
unfolding case_events of_case
case_events-append id db e c h =
    let kept : filter (of_case id) (e ∷ []) ≡ e ∷ [] = ground arith in
    ap ordered
      (filter-append (of_case id) db.events e ∙ ap (◌++◌ (filter (of_case id) db.events)) kept)
    ∙ ordered-append (filter (of_case id) db.events) e
        (sym (all-ordered (below e.sequence_number) (filter (of_case id) db.events)) ∙ h)
