-- ===== src/Coordinator/Order.antt =====
-- Views before the window: the order of the destructive effects over any history of calls.
use pane_dock.Common.{
  ℕ, ◌+◌, ◌≡◌, refl, Bool, true, false, List, [], ◌∷◌, arith, if◌then◌else◌, inl, inr, Bool-cases,
  any,
}
use pane_dock.Shutdown.{ShutdownEvent}
use pane_dock.Shutdown.Phases.{is_teardown, step-closing_same}
use pane_dock.Coordinator.{
  Effect, show_closing_caption, destroy_views, destroy_window, World, Coordinator, start, perform,
  finish, tell, Call, calls,
}
use pane_dock.Coordinator.Rule.{
  is_plain, hear-closing, finish_again, finish_first, Ensures, calls-keeps,
}

abbrev pub is_views : Effect → Bool
is_views (destroy_views ending) = true
is_views _ = false

abbrev pub is_window : Effect → Bool
is_window destroy_window = true
is_window _ = false

abbrev pub count : (Effect → Bool) → List Effect → ℕ
count p [] = 0
count p (e ∷ es) = (if p e then 1 else 0) + count p es

-- In a history, newest first, each destruction of the window has one of the views before it.
abbrev pub ViewsFirst : List Effect → Type 0
ViewsFirst [] = Unit {0}
ViewsFirst (e ∷ es) = (is_window e ≡ true → any is_views es ≡ true) × ViewsFirst es

abbrev pub begun : Coordinator → ℕ
begun c = if c.sequence.closing then 1 else 0

pub record IsOrdered (c : Coordinator) : Type 0 where
  pub views : count is_views c.trace ≡ begun c
  pub windows : count is_window c.trace ≡ begun c
  pub first : ViewsFirst c.trace

perform-IsOrdered :
    (w : World) (e : Effect) (c : Coordinator)
    → is_plain e ≡ true
    → IsOrdered c
    → IsOrdered (perform w e c)
unfolding perform
perform-IsOrdered w (destroy_views b) c h o = cc
perform-IsOrdered w destroy_window c h o = cc
perform-IsOrdered w (show_closing_caption b) c h o =
    ground (arith, hear-closing c.sequence (w.during (show_closing_caption b ∷ c.trace)))
perform-IsOrdered w e c h o = ground (arith, hear-closing c.sequence (w.during (e ∷ c.trace)))

tell-IsOrdered :
    (e : ShutdownEvent) (c : Coordinator)
    → is_teardown e ≡ false
    → IsOrdered c
    → IsOrdered (tell c e)
tell-IsOrdered e c h o = ground (arith, step-closing_same c.sequence e h)

IsOrdered-of_finish :
    (b : Bool) (c d : Coordinator)
    → d.trace ≡ destroy_window ∷ destroy_views b ∷ c.trace
    → d.sequence.closing ≡ true
    → c.sequence.closing ≡ false
    → IsOrdered c
    → IsOrdered d
IsOrdered-of_finish b c d t closed before o = record {
  views = rw (t, closed) (ground (arith, o.views));
  windows = rw (t, closed) (ground (arith, o.windows));
  first = rw t ((λ _. refl), ((λ h. cc), o.first));
}

finish-IsOrdered : (w : World) (c : Coordinator) → IsOrdered c → IsOrdered (finish w c)
finish-IsOrdered w c o = elim (Bool-cases c.sequence.closing) [
  | inl old ↦ rw (finish_again w c old) o
  | inr new ↦ let (t, s) = finish_first w c new in IsOrdered-of_finish _ c (finish w c) t s new o
]

-- Over every history of calls, whatever the app answers and whatever it reports meanwhile, the
-- views are destroyed exactly as often as the window and as often as a teardown has begun, at most
-- once, and never after the window.
pub calls-IsOrdered : (w : World) (n : ℕ) (xs : List Call) → Ensures IsOrdered (calls w n xs start)
calls-IsOrdered w n xs =
    calls-keeps w IsOrdered (perform-IsOrdered w) tell-IsOrdered (finish-IsOrdered w) n xs start
      (omega arith)
