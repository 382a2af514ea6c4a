-- ===== src/Logger/Fallback.antt =====
-- When Elasticsearch is given up, and how many entries wait.
use rocketmq_proxy.Prelude.{
  ◌<◌, ◌≤◌, List, [], ◌∷◌, Option, some, if◌then◌else◌, arith, ◌≡◌, refl, ◌∙◌, Option-cases, inl,
  inr,
}
use rocketmq_proxy.World.{LogUnit}
use rocketmq_proxy.Logger.{
  Libraries, Logger, write_file, flush, restart, tested, is_due, check_and_send_log, append_entry,
  round, rounds,
}

-- The number of failures is at its bound.
abbrev pub GivenUp : Logger → Type 0
GivenUp l = l.es_error_max ≤ l.es_error_count

-- The end of a run that posted nothing.
abbrev Silent : Logger → Option Logger → Type 0
Silent l r =
    (l' : Logger) × (r ≡ some l')
    × (l'.posts ≡ l.posts)
    × (l'.es_error_count ≡ l.es_error_count)
    × (l'.es_error_max ≡ l.es_error_max)

check-Silent : (lib : Libraries) (l : Logger) → GivenUp l → Silent l (check_and_send_log lib l)
unfolding check_and_send_log flush
check-Silent lib l g = (
  if is_due lib l then restart lib (write_file (tested l)) else tested l,
  ground arith,
  ground arith,
  ground arith,
  ground arith,
)

round-Silent :
    (lib : Libraries) (l : Logger) (us : List LogUnit) → GivenUp l → Silent l (round lib l us)
unfolding round append_entry
round-Silent lib l [] g = check-Silent lib l g
round-Silent lib l (u ∷ us) g =
    let (m, e, p, c, x) = check-Silent lib (append_entry lib l u) g in
    let (l', e', p', c', x') = round-Silent lib m us (omega arith) in
    (l', ground (arith, e, e'), p' ∙ p, c' ∙ c, x' ∙ x)

-- Once `bulk` has failed as often as `esErrorMax` says (ten times), Elasticsearch is never called
-- again, however long the program runs and even if the server has recovered; and no exception can
-- stop the thread from then on.
pub GivenUp-forever :
    (lib : Libraries) (l : Logger) (us : List (List LogUnit))
    → GivenUp l
    → (l' : Logger) × (rounds lib l us ≡ some l')
      × (l'.posts ≡ l.posts)
      × (l'.es_error_count ≡ l.es_error_count)
      × (l'.es_error_max ≡ l.es_error_max)
unfolding rounds
GivenUp-forever lib l [] g = (l, refl, refl, refl, refl)
GivenUp-forever lib l (us ∷ more) g =
    let (m, e, p, c, x) = round-Silent lib l us g in
    let (l', e', p', c', x') = GivenUp-forever lib m more (omega arith) in
    (l', ground (arith, e, e'), p' ∙ p, c' ∙ c, x' ∙ x)

check_bounded :
    (lib : Libraries) (l l' : Logger)
    → 0 < l.max
    → check_and_send_log lib l ≡ some l'
    → (l'.count < l'.max) × (l'.max ≡ l.max)
unfolding check_and_send_log flush
check_bounded lib l l' positive e = ground arith

-- With a positive bound, fewer entries than the bound (a hundred in `main`) wait after every round.
pub count_bounded :
    (lib : Libraries) (l l' : Logger) (us : List LogUnit)
    → 0 < l.max
    → round lib l us ≡ some l'
    → (l'.count < l'.max) × (l'.max ≡ l.max)
unfolding round append_entry
count_bounded lib l l' [] positive e = check_bounded lib l l' positive e
count_bounded lib l l' (u ∷ us) positive e =
    elim (Option-cases (check_and_send_log lib (append_entry lib l u))) [
      | inl stopped ↦ absurd (ground (arith, stopped))
      | inr (m, went) ↦
          let (few, same) = check_bounded lib (append_entry lib l u) m positive went in
          let (few', same') =
            count_bounded lib m l' us (omega (arith, same)) (ground (arith, went)) in
          (few', same' ∙ same)
    ]
