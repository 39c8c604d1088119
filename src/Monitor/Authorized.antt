-- ===== src/Monitor/Authorized.antt =====
-- Who may make an administration request, and what a stop leaves behind.
use quest_vd_wired.Common.{
  ℕ, ◌≡◌, refl, ◌∙◌, sym, false, Bool-cases, ◌⊎◌, inl, inr, List, arith, bytes_eq→eq, bytes_eq,
  bytes_eq_refl, ap, none, ◌≢◌,
}
use quest_vd_wired.Adb.Types.{AdbController}
use quest_vd_wired.Monitor.Host.{Host}
use quest_vd_wired.Monitor.Secret.{constant_time_eq, constant_time_eq-bytes_eq}
use quest_vd_wired.Monitor.Admin.{AdminRequest, handle, dispatch}

module _ (c : AdbController) (token : List ℕ) (r : AdminRequest) (request : ℕ) (h : Host c) where
  -- A request with the very token is carried out. Any other is refused: it changes nothing at all, and
  -- its answer tells nothing of the lifecycle.
  pub handle_authorized :
      (r.token ≡ token) × (handle c token r request h ≡ dispatch c r.command request h)
      ⊎ ((r.token ≢ token)
          × ((handle c token r request h).1 ≡ h)
          × ((handle c token r request h).0.accepted ≡ false)
          × ((handle c token r request h).0.status ≡ none))
  unfolding handle
  handle_authorized = elim (Bool-cases (constant_time_eq r.token token)) [
    | inl same ↦ inl (
      bytes_eq→eq r.token token (sym (constant_time_eq-bytes_eq r.token token) ∙ same),
      rw same refl,
    )
    | inr other ↦ inr (
      λ e.
          let k = constant_time_eq-bytes_eq r.token token in
          let l = ap (bytes_eq r.token) (sym e) in let m = bytes_eq_refl r.token in ground arith,
      rw other refl,
      rw other refl,
      rw other refl,
    )
  ]
