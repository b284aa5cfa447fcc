-- ===== src/Window/Merged.antt =====
-- Compaction and the merging of system messages in backend/agent/nodes.py.
use engineering_memory_agent.Common.{
  ◌≤◌, ◌<◌, ◌≡◌, ◌⊎◌, refl, sym, ap, ◌∙◌, subst, inl, inr, not, String, List, [], ◌∷◌, ◌++◌,
  append-nil, append_assoc, length, str_eq, leb, ◌==◌, arith, All, List-cases, Bool-cases,
}
use engineering_memory_agent.Agent.Message.{Block, Message, system, text, str_content}
use engineering_memory_agent.Common.Text.{strip}
use engineering_memory_agent.Window.Tail.{
  systems, others, newest, window_messages, split_overflow, total,
}
use engineering_memory_agent.Window.Budget.{split_overflow_lossless}
use engineering_memory_agent.Window.Compact.{
  Surroundings, tail_budget, summarize_overflow, compact, maybe_compact, bounded_messages,
  merge_system_messages, joined, content_of, fenced,
}
use engineering_memory_agent.Window.Systems.{
  IsOther, All-others, All-suffix, others-append, systems-append, systems-systems, others-systems,
  others-All, window_messages-IsWindow, cut_parts,
}

-- What compaction adds: nothing, or one system message with the model's summary of the oldest of the
-- dropped messages.
abbrev pub IsSummary : Surroundings → List Message → List Message → Type 0
IsSummary env dropped summaries =
    (summaries ≡ [])
    ⊎ ((folded : List Message) × (rest : List Message) × (folded ++ rest ≡ dropped)
        × (summaries ≡ system (text (summarize_overflow env folded)) ∷ []))

-- The conversation as it is, or with all system messages before the others.
abbrev pub IsOrdered : List Message → List Message → Type 0
IsOrdered ms c = (c ≡ ms) ⊎ (c ≡ systems c ++ others c)

-- What compaction and windowing leave as `c` of a conversation `ms`: a suffix of the other messages, and
-- the system messages as they were, with at most a summary behind them. A conversation that is not
-- left as it is has its system messages first.
pub record IsCompacted (env : Surroundings) (ms c : List Message) : Type 0 where
  pub dropped : List Message
  pub suffix : dropped ++ others c ≡ others ms
  pub some_left : 0 < length (others c)
  pub summaries : List Message
  pub summary : IsSummary env dropped summaries
  pub all_systems : systems c ≡ systems ms ++ summaries
  pub in_order : IsOrdered ms c

-- Windowing leaves a conversation as it is or puts its system messages first.
window-IsOrdered :
    (env : Surroundings) (ms : List Message)
    → 0 < length (others ms)
    → IsOrdered ms (window_messages env.tokens env.budget ms)
unfolding window_messages
window-IsOrdered env ms some_other = elim (Bool-cases (length (others ms) == 0)) [
  | inl e ↦ rw e (inl refl)
  | inr e ↦
      elim (Bool-cases (length (newest env.tokens env.budget (others ms)) == length (others ms))) [
        | inl f ↦ rw (e, f) (inl refl)
        | inr f ↦
            let tail = newest env.tokens env.budget (others ms) in
            let (kept, rest) = cut_parts env.tokens env.budget ms in
            rw (e, f) (inr (rw (kept, rest) refl))
      ]
]

IsSummary-more :
    (env : Surroundings) (dropped more summaries : List Message)
    → IsSummary env dropped summaries
    → IsSummary env (dropped ++ more) summaries
IsSummary-more env dropped more summaries (inl e) = inl e
IsSummary-more env dropped more summaries (inr (folded, rest, e, f)) =
    inr (folded, rest ++ more, sym (append_assoc folded rest more) ∙ ap (λ l. l ++ more) e, f)

IsOrdered-trans : (ms c w : List Message) → IsOrdered ms c → IsOrdered c w → IsOrdered ms w
IsOrdered-trans ms c w h (inr e) = inr e
IsOrdered-trans ms c w h (inl e) = subst (IsOrdered ms) (sym e) h

module _ (env : Surroundings) (ms : List Message) (some_other : 0 < length (others ms)) where
  same-IsCompacted : IsCompacted env ms ms
  same-IsCompacted = record {
    dropped = [];
    suffix = refl;
    some_left = some_other;
    summaries = [];
    summary = inl refl;
    all_systems = sym (append-nil (systems ms));
    in_order = inl refl;
  }

  folded-IsCompacted :
      (overflow tail : List Message)
      → overflow ++ tail ≡ others ms
      → 0 < length tail
      → IsCompacted env ms (systems ms ++ (system (text (summarize_overflow env overflow)) ∷ tail))
  unfolding systems others
  folded-IsCompacted overflow tail e left =
      let added = system (text (summarize_overflow env overflow)) in
      let (same, none_left) =
        others-All tail (All-suffix overflow tail (subst (All IsOther) (sym e) (All-others ms))) in
      let rest : others (systems ms ++ (added ∷ tail)) ≡ tail =
        others-append (systems ms) (added ∷ tail)
        ∙ ap (λ l. l ++ others tail) (others-systems ms)
        ∙ same in
      let front : systems (systems ms ++ (added ∷ tail)) ≡ systems ms ++ (added ∷ []) =
        systems-append (systems ms) (added ∷ tail)
        ∙ ap (λ l. l ++ (added ∷ systems tail)) (systems-systems ms)
        ∙ ap (λ l. systems ms ++ (added ∷ l)) none_left in
      record {
        dropped = overflow;
        suffix = ap (λ l. overflow ++ l) rest ∙ e;
        some_left = subst (λ l. 0 < length l) (sym rest) left;
        summaries = added ∷ [];
        summary = inr (overflow, [], append-nil overflow, refl);
        all_systems = front;
        in_order = inr (
            sym (append_assoc (systems ms) (added ∷ []) tail)
            ∙ ap (λ l. l ++ tail) (sym front)
            ∙ ap (λ l. systems (systems ms ++ (added ∷ tail)) ++ l) (sym rest));
      }

  compact-IsCompacted : IsCompacted env ms (compact env ms)
  unfolding compact
  compact-IsCompacted =
      let (overflow, tail) = split_overflow env.tokens (tail_budget env.budget) (others ms) in
      elim (Bool-cases (length overflow == 0)) [
        | inl e ↦ rw e same-IsCompacted
        | inr e ↦ elim (Bool-cases (str_eq (summarize_overflow env overflow) "")) [
          | inl f ↦ rw (e, f) same-IsCompacted
          | inr f ↦
              let (whole, left, _) =
                split_overflow_lossless env.tokens (tail_budget env.budget) (others ms)
                  some_other in
              rw (e, f) (folded-IsCompacted overflow tail whole left)
        ]
      ]

  maybe_compact-IsCompacted : IsCompacted env ms (maybe_compact env ms)
  unfolding maybe_compact
  maybe_compact-IsCompacted = elim (Bool-cases (not env.compaction_enabled)) [
    | inl e ↦ rw e same-IsCompacted
    | inr e ↦ elim (Bool-cases (leb (total env.tokens (others ms)) env.budget)) [
      | inl f ↦ rw (e, f) same-IsCompacted
      | inr f ↦ rw (e, f) compact-IsCompacted
    ]
  ]

  window-IsCompacted :
      (c : List Message)
      → IsCompacted env ms c
      → IsCompacted env ms (window_messages env.tokens env.budget c)
        × ((total env.tokens (others (window_messages env.tokens env.budget c)) ≤ env.budget)
            ⊎ (length (others (window_messages env.tokens env.budget c)) ≡ 1))
  window-IsCompacted c h =
      let w = window_messages-IsWindow env.tokens env.budget c h.some_left in
      let windowed = window_messages env.tokens env.budget c in
      (
        record {
          dropped = h.dropped ++ w.dropped;
          suffix =
              append_assoc h.dropped w.dropped (others windowed)
              ∙ ap (λ l. h.dropped ++ l) w.newest_last
              ∙ h.suffix;
          some_left = w.some_left;
          summaries = h.summaries;
          summary = IsSummary-more env h.dropped w.dropped h.summaries h.summary;
          all_systems = w.all_systems ∙ h.all_systems;
          in_order = IsOrdered-trans ms c windowed h.in_order (window-IsOrdered env c h.some_left);
        },
        w.fits,
      )

  -- What is sent of a conversation with a message that is not a system message: the newest other
  -- messages, in order, at least one, within the token budget unless it is one alone; and all system
  -- messages, in order, with at most one more behind them, which holds the model's summary of the
  -- oldest messages left out. The system messages stand first, unless the conversation is sent as it
  -- is. This holds whether compaction is on or off, and whether the summary succeeds, fails or is blank.
  pub bounded_messages-IsCompacted :
      let sent = bounded_messages env ms in
      IsCompacted env ms sent
      × ((total env.tokens (others sent) ≤ env.budget) ⊎ (length (others sent) ≡ 1))
  unfolding bounded_messages
  bounded_messages-IsCompacted = window-IsCompacted (maybe_compact env ms) maybe_compact-IsCompacted

merged_rest :
    (s : String) (ms : List Message)
    → let merged = system (text s) ∷ others ms in
      (others merged ≡ others ms) × (systems merged ≡ system (text s) ∷ [])
unfolding systems others
merged_rest s ms =
    let (a, b) = others-All (others ms) (All-others ms) in (a, ap (λ l. system (text s) ∷ l) b)

-- Merging leaves at most one system message and all other messages, in order.
pub merge_system_messages_once :
    (repr : List Block → String) (ms : List Message)
    → (length (systems (merge_system_messages repr ms)) ≤ 1)
      × (others (merge_system_messages repr ms) ≡ others ms)
unfolding merge_system_messages
merge_system_messages_once repr ms = elim (List-cases (systems ms)) [
  | inl e ↦ rw (e, merge_system_messages) (omega (arith, ap length e), refl)
  | inr (first, later, e) ↦ elim (Bool-cases (length later == 0)) [
    | inl f ↦ rw (e, merge_system_messages, f) (ground (arith, f, ap length e), refl)
    | inr f ↦
        let (rest, one) =
          merged_rest
            (joined "\n\n" (strip (str_content repr (content_of first)) ∷ fenced repr later)) ms in
        rw (e, merge_system_messages, f) (omega (arith, ap length one), rest)
  ]
]
