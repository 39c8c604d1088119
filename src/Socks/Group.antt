-- ===== src/Socks/Group.antt =====
-- `StreamerCandidates` and `CandidateGroup`: the sockets that join a flow that was accepted on the same port.
use quest_vd_wired.Common.{
  ℕ, ◌+◌, ◌≡◌, refl, Option, none, some, Bool, true, false, ◌&&◌, List, [], ◌∷◌, ◌++◌, ltb, leb,
  ◌==◌, arith, if◌then◌else◌, append_assoc, append-nil, ◌⊎◌, inl, inr, Option-cases, Bool-cases,
  sym, ap, ◌∙◌, subst,
}
use quest_vd_wired.Socks.Settle.{Client}

-- Nanoseconds.
abbrev pub candidate_join_window : ℕ
candidate_join_window = 500000000

-- `joins` is `none` once the accepted flow has chosen or ended.
pub record CandidateGroup : Type 0 where
  pub join_deadline : ℕ
  pub joins : Option (List Client)

unfoldable pub new_group : ℕ → CandidateGroup
new_group now = record { join_deadline = now + candidate_join_window; joins = some [] }

abbrev pub has_joins : Option (List Client) → Bool
has_joins none = false
has_joins (some cs) = true

unfoldable pub is_joinable : CandidateGroup → ℕ → Bool
is_joinable g now = ltb now g.join_deadline && has_joins g.joins

-- The socket is pushed, or given back.
unfoldable pub join_group : CandidateGroup → ℕ → Client → CandidateGroup × Bool
join_group g now client = if leb g.join_deadline now then (g, false) else elim g.joins [
  | none ↦ (g, false)
  | some pending ↦ (record g { joins = some (pending ++ (client ∷ [])) }, true)
]

unfoldable pub take_joined : CandidateGroup → CandidateGroup × List Client
take_joined g = elim g.joins [
  | none ↦ (g, [])
  | some pending ↦ (record g { joins = some [] }, pending)
]

unfoldable pub close_group : CandidateGroup → CandidateGroup
close_group g = record g { joins = none }

-- The groups of the ports: the newest of each port, and those before it, which were closed.
pub record StreamerCandidates : Type 0 where
  pub groups : ℕ → Option CandidateGroup
  pub replaced : List CandidateGroup

abbrev pub close_previous : Option CandidateGroup → List CandidateGroup → List CandidateGroup
close_previous none gs = gs
close_previous (some g) gs = close_group g ∷ gs

-- `open`, of the port with this index: a newer accept belongs to a new attempt.
unfoldable pub open_group : StreamerCandidates → ℕ → ℕ → StreamerCandidates
unfolding new_group close_group
open_group s port now = record {
  groups = λ p. if p == port then some (new_group now) else s.groups p;
  replaced = close_previous (s.groups port) s.replaced;
}

unfoldable pub joinable : StreamerCandidates → ℕ → ℕ → Option CandidateGroup
unfolding is_joinable
joinable s port now = elim (s.groups port) [
  | none ↦ none
  | some g ↦ if is_joinable g now then some g else none
]

-- What happens to one group.
pub data GroupCall : Type 0 where
  joins_at : ℕ → Client → GroupCall
  takes closes : GroupCall

-- The group, the clients that the calls accepted, and those that the flow took, in their order.
pub record Ledger : Type 0 where
  pub group : CandidateGroup
  pub accepted : List Client
  pub taken : List Client

abbrev pub note_join : Ledger → Client → CandidateGroup × Bool → Ledger
note_join d client (g, true) = record d { group = g; accepted = d.accepted ++ (client ∷ []) }
note_join d client (g, false) = record d { group = g }

abbrev pub note_taken : Ledger → CandidateGroup × List Client → Ledger
note_taken d (g, clients) = record d { group = g; taken = d.taken ++ clients }

unfoldable pub ledger_step : Ledger → GroupCall → Ledger
unfolding join_group take_joined close_group
ledger_step d (joins_at now client) = note_join d client (join_group d.group now client)
ledger_step d takes = note_taken d (take_joined d.group)
ledger_step d closes = record d { group = close_group d.group }

unfoldable pub ledger_run : Ledger → List GroupCall → Ledger
ledger_run d [] = d
ledger_run d (x ∷ xs) = ledger_run (ledger_step d x) xs

-- The clients that wait; a closed group dropped those that it had.
pub record IsInOrder (d : Ledger) : Type 0 where
  pub waiting : List Client
  pub in_order : d.accepted ≡ d.taken ++ waiting
  pub open_waits : (d.group.joins ≡ none) ⊎ (d.group.joins ≡ some waiting)

-- The two ways a join ends.
join_ends :
    (g : CandidateGroup) (now : ℕ) (client : Client)
    → (join_group g now client ≡ (g, false))
      ⊎ ((pending : List Client) × (g.joins ≡ some pending)
          × (join_group g now client
              ≡ (record g { joins = some (pending ++ (client ∷ [])) }, true)))
unfolding join_group
join_ends g now client = elim (Option-cases g.joins) [
  | inl e ↦ inl (ground (arith, e))
  | inr (pending, e) ↦ elim (Bool-cases (leb g.join_deadline now)) [
    | inl k ↦ inl (ground (arith, k))
    | inr k ↦ inr (pending, e, ground (arith, e, k))
  ]
]

join_group-IsInOrder :
    (d : Ledger) (client : Client) (r : CandidateGroup × Bool)
    → ((r ≡ (d.group, false))
        ⊎ ((pending : List Client) × (d.group.joins ≡ some pending)
            × (r ≡ (record d.group { joins = some (pending ++ (client ∷ [])) }, true))))
    → IsInOrder d
    → IsInOrder (note_join d client r)
join_group-IsInOrder d client r (inl e) h =
    subst (λ z. IsInOrder (note_join d client z)) (sym e)
      (record { waiting = h.waiting; in_order = h.in_order; open_waits = h.open_waits })
join_group-IsInOrder d client r (inr (pending, k, e)) h =
    subst (λ z. IsInOrder (note_join d client z)) (sym e)
      (record {
        waiting = pending ++ (client ∷ []);
        in_order =
            ap (λ z. z ++ (client ∷ [])) h.in_order
            ∙ (append_assoc d.taken h.waiting (client ∷ [])
                ∙ ap (λ z. d.taken ++ (z ++ (client ∷ []))) (ground (arith, k, h.open_waits)));
        open_waits = inr refl;
      })

take-IsInOrder :
    (d : Ledger) (r : CandidateGroup × List Client)
    → (((d.group.joins ≡ none) × (r ≡ (d.group, [])))
        ⊎ ((pending : List Client) × (d.group.joins ≡ some pending)
            × (r ≡ (record d.group { joins = some [] }, pending))))
    → IsInOrder d
    → IsInOrder (note_taken d r)
take-IsInOrder d r (inl (k, e)) h =
    subst (λ z. IsInOrder (note_taken d z)) (sym e)
      (record {
        waiting = h.waiting;
        in_order = h.in_order ∙ ap (λ z. z ++ h.waiting) (sym (append-nil d.taken));
        open_waits = inl k;
      })
take-IsInOrder d r (inr (pending, k, e)) h =
    subst (λ z. IsInOrder (note_taken d z)) (sym e)
      (record {
        waiting = [];
        in_order =
            h.in_order
            ∙ (ap (λ z. d.taken ++ z) (ground (arith, k, h.open_waits))
                ∙ sym (append-nil (d.taken ++ pending)));
        open_waits = inr refl;
      })

take_ends :
    (g : CandidateGroup)
    → ((g.joins ≡ none) × (take_joined g ≡ (g, [])))
      ⊎ ((pending : List Client) × (g.joins ≡ some pending)
          × (take_joined g ≡ (record g { joins = some [] }, pending)))
unfolding take_joined
take_ends g = elim (Option-cases g.joins) [
  | inl e ↦ inl (e, ground (arith, e))
  | inr (pending, e) ↦ inr (pending, e, ground (arith, e))
]

step-IsInOrder : (d : Ledger) (x : GroupCall) → IsInOrder d → IsInOrder (ledger_step d x)
unfolding ledger_step close_group
step-IsInOrder d (joins_at now client) h =
    join_group-IsInOrder d client (join_group d.group now client) (join_ends d.group now client) h
step-IsInOrder d takes h = take-IsInOrder d (take_joined d.group) (take_ends d.group) h
step-IsInOrder d closes h = record {
  waiting = h.waiting;
  in_order = h.in_order;
  open_waits = inl refl;
}

-- Whatever happens to a group: the flow takes the clients that joined in the order in which they did, each
-- once, and while the group is open those that it has not taken are the ones that wait.
pub ledger_run-IsInOrder :
    (d : Ledger) (xs : List GroupCall) → IsInOrder d → IsInOrder (ledger_run d xs)
unfolding ledger_run
ledger_run-IsInOrder d [] h = h
ledger_run-IsInOrder d (x ∷ xs) h = ledger_run-IsInOrder (ledger_step d x) xs (step-IsInOrder d x h)
