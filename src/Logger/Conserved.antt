-- ===== src/Logger/Conserved.antt =====
-- Nothing that is logged is lost while the log file is open.
use rocketmq_proxy.Prelude.{
  ℕ, true, List, [], ◌∷◌, ◌++◌, some, Bytes, arith, ◌≡◌, refl, ap, sym, ◌∙◌, append_assoc,
  append-nil, flatten, Option-cases, inl, inr,
}
use rocketmq_proxy.World.{LogUnit}
use rocketmq_proxy.Logger.{
  Libraries, Sink, Logger, es, file, flush, tested, check_and_send_log, entry, append_entry, round,
  rounds,
}

-- The bytes that were accepted or written, in order.
unfoldable pub texts : List (Sink × Bytes) → Bytes
texts [] = []
texts ((sink, text) ∷ outs) = text ++ texts outs

-- Those, and the bytes that wait.
abbrev pub written : Logger → Bytes
written l = texts l.outs ++ l.text

texts-append :
    (outs : List (Sink × Bytes)) (sink : Sink) (text : Bytes)
    → texts (outs ++ (sink, text) ∷ []) ≡ texts outs ++ text
unfolding texts
texts-append [] sink text = append-nil text
texts-append ((s, t) ∷ outs) sink text =
    ap (◌++◌ t) (texts-append outs sink text) ∙ sym (append_assoc t (texts outs) text)

-- A flush that ends moves the bytes that wait out, and leaves the file open.
flush_lem :
    (lib : Libraries) (l l' : Logger)
    → l.log_file_opened ≡ true
    → flush lib l ≡ some l'
    → (texts l'.outs ≡ written l) × (l'.log_file_opened ≡ true)
unfolding flush
flush_lem lib l l' opened e =
    ground (arith, texts-append l.outs es l.text, texts-append l.outs file l.text)

check_lem :
    (lib : Libraries) (l l' : Logger)
    → l.log_file_opened ≡ true
    → check_and_send_log lib l ≡ some l'
    → (written l' ≡ written l) × (l'.log_file_opened ≡ true)
unfolding check_and_send_log
check_lem lib l l' opened e = elim (Option-cases (flush lib (tested l))) [
  | inl none_sent ↦ ground (arith, none_sent)
  | inr (f, sent) ↦
      ground
        (arith, sent, flush_lem lib (tested l) f (ground arith) sent, append-nil (texts f.outs))
]

-- The bytes of some entries, each at some reading of the clock.
abbrev pub IsLog : Libraries → List LogUnit → Bytes → Type 0
IsLog lib [] s = s ≡ []
IsLog lib (u ∷ us) s = (t : ℕ) × (rest : Bytes) × (s ≡ entry lib u t ++ rest) × IsLog lib us rest

-- A run that ends, from `l` to `l'`, has put out or holds the entries of `us`.
abbrev Logs : Libraries → Logger → Logger → List LogUnit → Type 0
Logs lib l l' us =
    (s : Bytes) × IsLog lib us s × (written l' ≡ written l ++ s) × (l'.log_file_opened ≡ true)

round_lem :
    (lib : Libraries) (l l' : Logger) (us : List LogUnit)
    → l.log_file_opened ≡ true
    → round lib l us ≡ some l'
    → Logs lib l l' us
unfolding round append_entry
round_lem lib l l' [] opened e =
    let (same, still) = check_lem lib l l' opened e in
    ([], refl, same ∙ sym (append-nil (written l)), still)
round_lem lib l l' (u ∷ us) opened e =
    elim (Option-cases (check_and_send_log lib (append_entry lib l u))) [
      | inl stopped ↦ absurd (ground (arith, stopped))
      | inr (m, went) ↦
          let (same, still) = check_lem lib (append_entry lib l u) m opened went in
          let (s, is_log, more, still') = round_lem lib m l' us still (ground (arith, went)) in
          (
            entry lib u (lib.time l.reads) ++ s,
            (lib.time l.reads, s, refl, is_log),
            regroup m s more same,
            still',
          )
    ]
  where
    regroup :
        (m : Logger) (s : Bytes)
        → written l' ≡ written m ++ s
        → written m ≡ texts l.outs ++ (l.text ++ entry lib u (lib.time l.reads))
        → written l' ≡ written l ++ (entry lib u (lib.time l.reads) ++ s)
    regroup m s more same = more ∙ rw (same) (simp append_assoc)

IsLog-append :
    (lib : Libraries) (us vs : List LogUnit) (s t : Bytes)
    → IsLog lib us s
    → IsLog lib vs t
    → IsLog lib (us ++ vs) (s ++ t)
IsLog-append lib [] vs s t h k = rw h k
IsLog-append lib (u ∷ us) vs s t (now, rest, e, h) k = (
  now,
  rest ++ t,
  rw e (append_assoc (entry lib u now) rest t),
  IsLog-append lib us vs rest t h k,
)

-- While the log file is open, and unless an exception stops the thread: after any number of rounds,
-- what Elasticsearch accepted and what was written to the file, in that order, followed by the
-- bytes that still wait, is what there was before followed by one entry for each log unit of the
-- rounds, in the order of the queue. No entry is lost, doubled or reordered.
pub rounds_conserve :
    (lib : Libraries) (l l' : Logger) (us : List (List LogUnit))
    → l.log_file_opened ≡ true
    → rounds lib l us ≡ some l'
    → (s : Bytes) × IsLog lib (flatten us) s
      × (written l' ≡ written l ++ s)
      × (l'.log_file_opened ≡ true)
unfolding rounds
rounds_conserve lib l l' [] opened e =
    ([], refl, ground (arith, append-nil (written l)), ground arith)
rounds_conserve lib l l' (us ∷ more) opened e = elim (Option-cases (round lib l us)) [
  | inl stopped ↦ absurd (ground (arith, stopped))
  | inr (m, went) ↦
      let (s, is_log, step, still) = round_lem lib l m us opened went in
      let (t, is_log', step', still') =
        rounds_conserve lib m l' more still (ground (arith, went)) in
      (
        s ++ t,
        IsLog-append lib us (flatten more) s t is_log is_log',
        step' ∙ rw step (append_assoc (written l) s t),
        still',
      )
]
