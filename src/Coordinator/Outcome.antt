-- ===== src/Coordinator/Outcome.antt =====
-- What single calls of the coordinator do: the retry that never ends, the checkpoint of a session
-- end, and a close whose save fails.
use pane_dock.Common.{
  ◌⊎◌, ℕ, zero, suc, ◌≡◌, refl, true, false, List, [], ◌∷◌, ◌++◌, none, some, ap, inl, inr,
  Bool-cases, ◌∙◌, ◌||◌, not, ◌==◌, arith,
}
use pane_dock.Shutdown.{ShutdownAction, State, step}
use pane_dock.Shutdown
use pane_dock.Shutdown.Session.{IsIdle}
use pane_dock.Shutdown.Gates.{MaySave}
use pane_dock.Coordinator.Rule.{Ensures, Ensures-cond, run-Keeps, finish_again, finish_first}
use pane_dock.Coordinator.{
  destroy_window, destroy_views, is_defer, Effect, show_closing_caption, post_deferred_shutdown,
  save_session, ask_keep_open_after_save_failure, write_end_session_checkpoint, World, Coordinator,
  perform, hear, finish, tell, ask, run, run_defer, post_close, after_post, retry_close,
  run_save_session, run_prompt_save_failure, settle_prompt, request_close, deferred_shutdown_ready,
  end_session_confirmed,
}

-- The window stays, no post ever lands, and no event reaches the reducer while an effect runs.
pub record IsJammed (w : World) : Type 0 where
  pub window : (h : List Effect) → w.has_window h ≡ true
  pub alive : (h : List Effect) → w.window_alive h ≡ true
  pub full : (h : List Effect) → w.answer (post_deferred_shutdown ∷ h) ≡ false
  pub quiet : (h : List Effect) → w.during h ≡ []

-- A state in which a close is deferred and nothing holds it back.
record IsDue (s : State) : Type 0 where
  not_closing : s.closing ≡ false
  not_quitting : s.quit_requested ≡ false
  deferred : s.shutdown_deferred ≡ true
  not_queued : s.shutdown_message_queued ≡ false
  no_prompt : s.shutdown_prompt_active ≡ false
  not_attempted : s.shutdown_save_attempted ≡ false
  no_operation : s.file_operation_in_progress ≡ false
  no_session_end : s.end_session_pending ≡ false
  no_shell_call : s.shell_call_depth ≡ 0

module _ (w : World) (jam : IsJammed w) where
  run_defer_jammed :
      (n : ℕ) (c : Coordinator) → IsDue c.sequence → run w n ShutdownAction.defer c ≡ none
  unfolding run run_defer post_close after_post retry_close perform hear step
  run_defer_jammed zero c due = refl
  run_defer_jammed (suc n) c due =
      let shown = show_closing_caption true ∷ c.trace in
      let posted = post_deferred_shutdown ∷ shown in
      let again : Coordinator = record {
        sequence = record c.sequence { shutdown_deferred = true; shutdown_message_queued = false };
        trace = posted;
      } in
      ground (
        arith,
        jam.quiet shown,
        jam.quiet posted,
        jam.window shown,
        jam.alive posted,
        jam.full shown,
        run_defer_jammed n again (ground arith),
      )

  -- If the window stays, no post ever lands and no event reaches the reducer while the coordinator performs its
  -- effects, a close of an idle window runs out of any fuel: the retry of `run` through `request_close` has no
  -- bound. No Shell call, file operation or quit is under way when the close is asked for.
  pub request_close_jammed :
      (n : ℕ) (c : Coordinator)
      → IsIdle c.sequence
      → c.sequence.quit_requested ≡ false
      → c.sequence.shell_call_depth ≡ 0
      → c.sequence.file_operation_in_progress ≡ false
      → request_close w n c ≡ none
  unfolding request_close step
  request_close_jammed n c idle quit depth operation =
      let due : Coordinator = record c {
        sequence = record c.sequence { shutdown_deferred = true };
      } in
      ground (arith, run_defer_jammed n due (ground arith))

-- `u` is `t` with later effects in front.
abbrev pub Follows : List Effect → List Effect → Type 0
Follows t u = (later : List Effect) × (u ≡ later ++ t)

finish-Follows :
    (w : World) (t : List Effect) (c : Coordinator)
    → Follows t c.trace
    → Follows t (finish w c).trace
finish-Follows w t c (later, e) = elim (Bool-cases c.sequence.closing) [
  | inl old ↦ (later, ap (λ (x : Coordinator). x.trace) (finish_again w c old) ∙ e)
  | inr new ↦ (
    destroy_window ∷ destroy_views c.sequence.end_session_pending ∷ later,
    (finish_first w c new).0
        ∙ ap
            (λ (x : List Effect). destroy_window ∷ destroy_views c.sequence.end_session_pending ∷ x)
            e,
  )
]

-- The checkpoint of a confirmed session end is written before every other effect of that call,
-- whatever the state: each result's history goes on from it.
pub end_session_confirmed-checkpoint :
    (w : World) (n : ℕ) (c : Coordinator)
    → Ensures
        (λ d. Follows (write_end_session_checkpoint ∷ c.trace) d.trace)
        (end_session_confirmed w n c)
unfolding end_session_confirmed perform
end_session_confirmed-checkpoint w n c =
    let d = perform w write_end_session_checkpoint (tell c Shutdown.end_session) in
    Ensures-cond _
      (d.sequence.closing
        || not (is_defer (ask c Shutdown.end_session))
        || not (d.sequence.shell_call_depth == 0)
        || d.sequence.drag_in_progress)
      _ _ ([], refl)
      (run-Keeps w (λ x. Follows (write_end_session_checkpoint ∷ c.trace) x.trace)
        (λ e x _ (later, t). (e ∷ later, ap (◌∷◌ e) t)) (λ e x _ f. f) (finish-Follows w _) n _ _
        ([], refl))

-- While an effect runs nothing else reaches the reducer.
abbrev pub IsQuiet : World → Type 0
IsQuiet w = (h : List Effect) → w.during h ≡ []

module _ (w : World) (quiet : IsQuiet w) (n : ℕ) (c : Coordinator) (may : MaySave c.sequence) where
  abbrev saving : List Effect
  saving = save_session ∷ c.trace

  abbrev asking : List Effect
  asking = ask_keep_open_after_save_failure ∷ saving

  abbrev torn : List Effect → List Effect
  torn t = destroy_window ∷ destroy_views c.sequence.end_session_pending ∷ t

  -- A save that succeeds tears down at once: views, then the window, with the clean marker armed.
  pub ready_saved :
      w.answer saving ≡ true
      → (d : Coordinator) × (deferred_shutdown_ready w (suc (suc n)) c ≡ some d)
        × (d.trace ≡ torn saving)
        × (d.sequence.closing ≡ true)
        × (d.sequence.shutdown_clean_marker_armed ≡ true)
  unfolding deferred_shutdown_ready run run_save_session perform hear finish step
  ready_saved saved =
      let told = tell c Shutdown.deferred_shutdown_ready in
      let kept = tell (perform w save_session told) Shutdown.save_succeeded in
      let q = quiet saving in
      let r = quiet (destroy_views c.sequence.end_session_pending ∷ saving) in
      let t = quiet (torn saving) in
      (finish w kept, ground arith, ground arith, ground arith, ground arith)

  -- A save that fails while the user keeps the window open, and no session end is pending, leaves
  -- the window and its views alone and takes the caption back; the next close is accepted again,
  -- unless a quit was requested or a file operation runs.
  pub ready_kept_open :
      c.sequence.end_session_pending ≡ false
      → w.answer saving ≡ false
      → w.answer asking ≡ true
      → (d : Coordinator) × (deferred_shutdown_ready w (suc (suc n)) c ≡ some d)
        × (d.trace ≡ show_closing_caption false ∷ asking)
        × (d.sequence.closing ≡ false)
        × ((d.sequence.quit_requested ≡ true)
            ⊎ (d.sequence.file_operation_in_progress ≡ true)
            ⊎ (ask d Shutdown.close_requested ≡ ShutdownAction.defer))
  unfolding deferred_shutdown_ready run run_save_session run_prompt_save_failure settle_prompt
      perform hear step
  ready_kept_open pending failed kept =
      let told = tell c Shutdown.deferred_shutdown_ready in
      let asked = perform w ask_keep_open_after_save_failure (
        tell (tell (perform w save_session told) Shutdown.save_failed)
          Shutdown.save_prompt_started) in
      let d =
        perform w (show_closing_caption false)
          (tell (tell asked Shutdown.save_prompt_finished) Shutdown.save_keep_open) in
      let q = quiet saving in
      let r = quiet asking in
      let t = quiet (show_closing_caption false ∷ asking) in
      (d, ground arith, ground arith, ground arith, ground arith)

  -- A save that fails and is discarded, with no session end pending, tears down all the same, with
  -- the clean marker not armed.
  pub ready_discarded :
      c.sequence.end_session_pending ≡ false
      → w.answer saving ≡ false
      → w.answer asking ≡ false
      → (d : Coordinator) × (deferred_shutdown_ready w (suc (suc (suc n))) c ≡ some d)
        × (d.trace ≡ torn asking)
        × (d.sequence.closing ≡ true)
        × (d.sequence.shutdown_clean_marker_armed ≡ false)
  unfolding deferred_shutdown_ready run run_save_session run_prompt_save_failure settle_prompt
      perform hear finish step
  ready_discarded pending failed discarded =
      let told = tell c Shutdown.deferred_shutdown_ready in
      let asked = perform w ask_keep_open_after_save_failure (
        tell (tell (perform w save_session told) Shutdown.save_failed)
          Shutdown.save_prompt_started) in
      let kept = tell (tell asked Shutdown.save_prompt_finished) Shutdown.save_discarded in
      let q = quiet saving in
      let r = quiet asking in
      let t = quiet (destroy_views c.sequence.end_session_pending ∷ asking) in
      let u = quiet (torn asking) in
      (finish w kept, ground arith, ground arith, ground arith, ground arith)
