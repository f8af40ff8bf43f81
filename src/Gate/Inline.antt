-- ===== src/Gate/Inline.antt =====
-- When `Execute` of internal/core/services/approval_gate.go runs a gated tool at once.
use mathlib.Core.Path.{subst, sym}
use eggy.Prelude.{
  String, true, false, not, ◌∙◌, ◌≡◌, refl, ap, if◌then◌else◌, ◌⊎◌, inl, inr, [], ◌∷◌, ◌++◌, arith,
  Bool-cases, Option-cases,
}
use eggy.Prelude.Result.{Error, ok, err, Result-cases, bind-ok, ok-injective}
use eggy.Approvals.Service.{ApprovalService, Codec}
use eggy.Approvals.Operations.{mode}
use eggy.Store.{
  ApprovalMode, strict, normal, auto, unknown, is_valid, State, Db, Call, acting_account, load,
  load_state,
}
use eggy.Gate.{GatedTool, GatedCall, World, is_gated, runs_inline, current_mode, gate_execute}

module _ (c : Codec) (s : ApprovalService) (encode : GatedCall → c.Payload)
    (summary : GatedCall → String) where
  -- The mode in force for an account: the one that it chose, and where it chose none that there is, `auto`
  -- for its old switch, or else the default of the service.
  pub data InForce (state : State) : ApprovalMode → Type 0 where
    chosen_strict : state.approval_mode ≡ strict → InForce state strict
    chosen_normal : state.approval_mode ≡ normal → InForce state normal
    chosen_auto : state.approval_mode ≡ auto → InForce state auto
    switched :
        (text : String)
        → state.approval_mode ≡ unknown text
        → state.approval_auto_mode ≡ true
        → InForce state auto
    by_default :
        (text : String)
        → state.approval_mode ≡ unknown text
        → state.approval_auto_mode ≡ false
        → InForce state s.default_mode

  mode_of-InForce :
      (state : State) (m stored : ApprovalMode)
      → state.approval_mode ≡ stored
      → (if is_valid stored
          then stored
          else if state.approval_auto_mode
          then auto
          else s.default_mode)
        ≡ m
      → InForce state m
  unfolding is_valid
  mode_of-InForce state m strict had h = subst (InForce state) h (chosen_strict had)
  mode_of-InForce state m normal had h = subst (InForce state) h (chosen_normal had)
  mode_of-InForce state m auto had h = subst (InForce state) h (chosen_auto had)
  mode_of-InForce state m (unknown text) had h = elim (Bool-cases state.approval_auto_mode) [
    | inl on ↦ subst (InForce state) (rw on at h) (switched text had on)
    | inr off ↦ subst (InForce state) (rw off at h) (by_default text had off)
  ]

  mode-InForce :
      (db : Db) (call : Call) (m : ApprovalMode)
      → mode s db call ≡ ok m
      → (account : String) × ((acting_account call ≡ ok account)
          × InForce (load_state db account) m)
  unfolding mode load
  mode-InForce db call m h =
      let (state, (loaded, h₁)) = bind-ok (load db call) _ m h in
      let (account, (by, h₂)) = bind-ok (acting_account call) _ state loaded in
      (
        account,
        (
          by,
          elim (Option-cases call.read_fault) [
            | inr (e, fault) ↦ absurd (ground (arith, fault, h₂))
            | inl fine ↦
                subst (λ x. InForce x m)
                  (sym (ok-injective (load_state db account) state (rw fine at h₂)))
                  (mode_of-InForce state m state.approval_mode refl (ok-injective _ m h₁))
          ],
        ),
      )

  -- The reader of modes is there, and the mode in force for the acting account is `auto`, or `normal` while
  -- the tool's rule lets the call run.
  pub record Lets (t : GatedTool) (call : Call) (raw : String) (db : Db) : Type 0 where
    pub reads_modes : t.modes ≡ true
    pub account : String
    pub by : acting_account call ≡ ok account
    pub lets :
        InForce (load_state db account) auto
        ⊎ (InForce (load_state db account) normal × (is_gated t.gated raw ≡ false))

  -- The call ran once, with the arguments given, under a mode that lets it, and no approval was asked for.
  pub record Inline (t : GatedTool) (call : Call) (raw : String) (w w' : World) : Type 0 where
    pub lets : Lets t call raw w.db
    pub ran : w'.ran ≡ w.ran ++ (t.inner.name, raw) ∷ []
    pub db : w'.db ≡ w.db

  current_mode-strict :
      (t : GatedTool) (db : Db) (call : Call) (m : ApprovalMode)
      → t.modes ≡ false
      → current_mode c s encode summary t db call ≡ ok m
      → strict ≡ m
  unfolding current_mode
  current_mode-strict t db call m none_read h = ok-injective strict m (rw none_read at h)

  runs_inline-Lets :
      (t : GatedTool) (call : Call) (raw : String) (db : Db) (m : ApprovalMode)
      → current_mode c s encode summary t db call ≡ ok m
      → runs_inline m t.gated raw ≡ true
      → Lets t call raw db
  unfolding current_mode runs_inline
  runs_inline-Lets t call raw db m read h = elim (Bool-cases t.modes) [
    | inr nil ↦ absurd (
        ground (
          arith,
          ap (λ x. runs_inline x t.gated raw) (current_mode-strict t db call m nil read),
          h,
        ))
    | inl there ↦
        let (account, (by, force)) = mode-InForce db call m (rw there at read) in
        record { reads_modes = there; account = account; by = by; lets = under m account force h }
  ]
    where
      under :
          (m : ApprovalMode) (account : String)
          → InForce (load_state db account) m
          → runs_inline m t.gated raw ≡ true
          → InForce (load_state db account) auto
            ⊎ (InForce (load_state db account) normal × (is_gated t.gated raw ≡ false))
      under auto account force h = inl force
      under normal account force h = inr (force, ground (arith, h))
      under strict account force h = absurd (ground (arith, h))
      under (unknown text) account force h = absurd (ground (arith, h))

  InForce-value :
      (state : State) (m : ApprovalMode)
      → InForce state m
      → (if is_valid state.approval_mode
          then state.approval_mode
          else if state.approval_auto_mode
          then auto
          else s.default_mode)
        ≡ m
  unfolding is_valid
  InForce-value state m (chosen_strict had) = rw had refl
  InForce-value state m (chosen_normal had) = rw had refl
  InForce-value state m (chosen_auto had) = rw had refl
  InForce-value state m (switched text had on) = rw (had, on) refl
  InForce-value state m (by_default text had off) = rw (had, off) refl

  -- One mode is in force for an account.
  InForce-same :
      (db : Db) (call : Call) (account : String) (m m' : ApprovalMode)
      → mode s db call ≡ ok m
      → acting_account call ≡ ok account
      → InForce (load_state db account) m'
      → m' ≡ m
  InForce-same db call account m m' read by force =
      let (account', (by', force')) = mode-InForce db call m read in
      let same : account' ≡ account = ok-injective account' account (sym by' ∙ by) in
      sym (InForce-value (load_state db account) m' force)
      ∙ InForce-value (load_state db account) m
          (subst (λ a. InForce (load_state db a) m) same force')

  Lets-runs_inline :
      (t : GatedTool) (call : Call) (raw : String) (db : Db) (m : ApprovalMode)
      → current_mode c s encode summary t db call ≡ ok m
      → Lets t call raw db
      → runs_inline m t.gated raw ≡ true
  unfolding current_mode runs_inline
  Lets-runs_inline t call raw db m read l =
      let found : mode s db call ≡ ok m = rw (l.reads_modes) at read in
      elim l.lets [
        | inl force ↦
            subst (λ x. runs_inline x t.gated raw ≡ true)
              (InForce-same db call l.account m auto found l.by force) refl
        | inr (force, free) ↦
            subst (λ x. runs_inline x t.gated raw ≡ true)
              (InForce-same db call l.account m normal found l.by force) (ap not free)
      ]

  -- Nothing ran, as the mode could not be read or does not let the call run.
  pub record Held (t : GatedTool) (call : Call) (raw : String) (w w' : World) : Type 0 where
    pub ran : w'.ran ≡ w.ran
    pub held : ((e : Error) × (mode s w.db call ≡ err e)) ⊎ (Lets t call raw w.db → ⊥)

  current_mode-err :
      (t : GatedTool) (db : Db) (call : Call) (e : Error)
      → current_mode c s encode summary t db call ≡ err e
      → mode s db call ≡ err e
  unfolding current_mode
  current_mode-err t db call e h = elim (Bool-cases t.modes) [
    | inl there ↦ rw there at h
    | inr nil ↦ absurd (ground (arith, nil, h))
  ]

  -- A call of a gated tool runs, once, with the arguments given and no approval asked for, if the tool has a
  -- reader of modes and the mode in force for the acting account is `auto`, or `normal` while the tool's
  -- rule does not gate the call; otherwise, or when the mode cannot be read, it runs nothing. In force is
  -- the mode that the account chose, and where it chose none of the three, `auto` for its old switch, or
  -- else the default of the service.
  pub gate_execute-Inline :
      (t : GatedTool) (call : Call) (id raw : String) (w : World)
      → let w' = (gate_execute c s encode summary t call id raw w).1 in
        Held t call raw w w' ⊎ Inline t call raw w w'
  unfolding gate_execute
  gate_execute-Inline t call id raw w =
      elim (Result-cases (current_mode c s encode summary t w.db call)) [
        | inr (e, p) ↦
            inl (record { ran = ground arith; held = inl (e, current_mode-err t w.db call e p) })
        | inl (m, p) ↦ elim (Bool-cases (runs_inline m t.gated raw)) [
          | inr asks ↦ inl (record {
            ran = ground arith;
            held = inr (λ l. absurd (ground (arith, asks, Lets-runs_inline t call raw w.db m p l)));
          })
          | inl lets ↦ inr (record {
            lets = runs_inline-Lets t call raw w.db m p lets;
            ran = ground arith;
            db = ground arith;
          })
        ]
      ]
