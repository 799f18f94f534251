-- ===== src/Incidents/Severe.antt =====
-- apps/api/app/services/recovery_incident_context.py: no severe incident that concerns a case hides
-- behind the one that is loaded for it.
use mathlib.Core.List.{Memᴰ}
use reclaim_rail.Base.{
  ℕ, ltb, ◌≤ℤ◌, ◌≡◌, ◌≢◌, refl, sym, ap, ◌∙◌, ◌⊎◌, inl, inr, String, Bool, true, false, ◌&&◌,
  Bool-cases, Option, none, some, List, [], ◌∷◌, any, filter, Datetime, arith, eq_iff,
}
use reclaim_rail.Base.Rows.{insert, sort, any-insert, any-sort, any-filter}
use reclaim_rail.Base.Members.{any-mem}
use reclaim_rail.Incidents.{IncidentSeverity, low, medium, high, critical}
use reclaim_rail.Incidents.Active.{
  IncidentStatus, RevenueIncident, IncidentContext, resolved, dismissed, is_active, is_relevant,
  severity_rank, stronger, strongest, load_active_incident,
}

abbrev pub is_severe : IncidentSeverity → Bool
is_severe high = true
is_severe critical = true
is_severe _ = false

abbrev pub severe_context : Option IncidentContext → Bool
severe_context none = false
severe_context (some i) = is_severe i.severity

-- the incident is neither resolved nor dismissed, of the currency, not over, and is the source of the
-- case, of the whole merchant, or of the payment method of the case
pub record Concerns (source : Option ℕ) (currency : String) (method : Option String)
    (now : Datetime) (i : RevenueIncident) : Type 0 where
  pub unresolved : i.status ≢ resolved
  pub undismissed : i.status ≢ dismissed
  pub same_currency : i.currency ≡ currency
  pub lasting : now.instant ≤ℤ i.current_window_end.instant
  pub in_scope :
      (source ≡ some i.id)
      ⊎ ((i.scope ≡ "global") ⊎ ((i.scope ≡ "payment_method") × (method ≡ some i.dimension_value)))

is_active_lem : (s : IncidentStatus) → s ≢ resolved → s ≢ dismissed → is_active s ≡ true
is_active_lem IncidentStatus.resolved h k = absurd (h refl)
is_active_lem IncidentStatus.dismissed h k = absurd (k refl)
is_active_lem _ h k = refl

Concerns-is_relevant :
    (source : Option ℕ) (currency : String) (method : Option String) (now : Datetime)
    (i : RevenueIncident)
    → Concerns source currency method now i
    → is_relevant source currency method now i ≡ true
Concerns-is_relevant source currency method now i c =
    let active = is_active_lem i.status c.unresolved c.undismissed in
    let lasts = c.lasting in
    let equal = c.same_currency in
    elim c.in_scope [
      | inl h ↦ rw h (ground (arith, active, eq_iff i.currency currency))
      | inr (inl h) ↦ ground (arith, active, eq_iff i.currency currency, eq_iff i.scope "global")
      | inr (inr (h, k)) ↦ rw k (
          ground (
            arith,
            active,
            eq_iff i.currency currency,
            eq_iff i.scope "payment_method",
            eq_iff i.dimension_value i.dimension_value,
          ))
    ]

is_severe-rank : (s : IncidentSeverity) → is_severe s ≡ ltb 2 (severity_rank s)
is_severe-rank low = refl
is_severe-rank medium = refl
is_severe-rank high = refl
is_severe-rank critical = refl

-- the first of a list that is ordered by strength is severe if any is
abbrev severe : RevenueIncident → Bool
severe i = is_severe i.severity

stronger-severe : (a b : RevenueIncident) → stronger a b ≡ true → severe b ≡ true → severe a ≡ true
stronger-severe a b h k = ground (arith, is_severe-rank a.severity, is_severe-rank b.severity)

weaker-severe : (a b : RevenueIncident) → stronger a b ≡ false → severe a ≡ true → severe b ≡ true
weaker-severe a b h k = ground (arith, is_severe-rank a.severity, is_severe-rank b.severity)

insert-severe :
    (a : RevenueIncident) (bs : List RevenueIncident)
    → severe_context (strongest bs) ≡ any severe bs
    → severe_context (strongest (insert stronger a bs)) ≡ any severe (insert stronger a bs)
unfolding insert
insert-severe a [] h = ground arith
insert-severe a (b ∷ bs) h =
    ground (arith, any-insert stronger severe a bs, stronger-severe a b, weaker-severe a b)

sort-severe :
    (bs : List RevenueIncident) → severe_context (strongest (sort stronger bs)) ≡ any severe bs
unfolding sort
sort-severe [] = refl
sort-severe (b ∷ bs) =
    insert-severe b (sort stronger bs) (sort-severe bs ∙ sym (any-sort stronger severe bs))
    ∙ any-sort stronger severe (b ∷ bs)

pub load-severe :
    (incidents : List RevenueIncident) (now : Datetime) (source : Option ℕ) (currency : String)
    (method : Option String) (i : RevenueIncident)
    → severe_context (load_active_incident incidents now source currency method) ≡ false
    → Memᴰ i incidents
    → Concerns source currency method now i
    → (i.severity ≢ high) × (i.severity ≢ critical)
unfolding load_active_incident
load-severe incidents now source currency method i mild m c =
    let none_severe : severe i ≡ false = elim (Bool-cases (severe i)) [
      | inl h ↦ absurd (
          let there =
            any-mem (λ j. is_relevant source currency method now j && severe j) m
              (rw (Concerns-is_relevant source currency method now i c) h) in
          let kept = any-filter severe (is_relevant source currency method now) incidents in
          let first = sort-severe (filter (is_relevant source currency method now) incidents) in
          ground arith)
      | inr h ↦ h
    ] in
    (λ h. ground (arith, ap is_severe h), λ h. ground (arith, ap is_severe h))
