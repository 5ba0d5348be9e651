-- ===== src/PlotStore.antt =====
-- src/signalplotlistmodel.cpp with its pointers: the charts that are alive, and who deletes them.
pub mod Owned
use can_tracer.Prelude.{
  ℕ, zero, suc, Bool, true, false, Option, none, some, List, [], ◌∷◌, ◌++◌, ◌==◌, if◌then◌else◌,
  length, get_elem?,
}
use can_tracer.Prelude.Outcome.{Outcome, ok, fault, bad_access, or_fault, ◌>>=◌}
use can_tracer.Can.{CanSignal}
use can_tracer.Window.{SignalPlotItem, ChartView, remove_at}

-- The charts that were made by `new` and not yet deleted, with their addresses.
abbrev pub Store : Type 0 → Type 0
Store F = List (ℕ × ChartView F)

pub record SignalPlotListModel (F : Type 0) : Type 0 where
  pub items : List (SignalPlotItem F)
  pub widgets : List ℕ
  pub live : Store F

module _ {F : Type 0} where
  abbrev pub look_up : ℕ → Store F → Option (ChartView F)
  look_up a [] = none
  look_up a (c ∷ cs) = let rest = look_up a cs in if c.0 == a then some c.1 else rest

  -- `delete` of a pointer that does not lead to a chart is undefined.
  abbrev pub delete : ℕ → Store F → Outcome (Store F)
  delete a [] = fault bad_access
  delete a (c ∷ cs) =
      let rest = delete a cs in if c.0 == a then ok cs else rest >>= λ cs'. ok (c ∷ cs')

  abbrev pub delete_all : List ℕ → Store F → Outcome (Store F)
  delete_all [] cs = ok cs
  delete_all (a ∷ as') cs = delete a cs >>= delete_all as'

  -- `widget` is the address of a chart that the caller has made.
  unfoldable pub add_item : ℕ → CanSignal F → ℕ → SignalPlotListModel F → SignalPlotListModel F
  add_item msg_id signal widget m = record m {
    items = m.items ++ (record { msg_id = msg_id; signal = signal } ∷ []);
    widgets = m.widgets ++ (widget ∷ []);
  }

  unfoldable pub remove_item : Option ℕ → SignalPlotListModel F → Outcome (SignalPlotListModel F)
  remove_item none m = ok m
  remove_item (some row) m = do
    item ← or_fault bad_access (get_elem? m.items row)
    widget ← or_fault bad_access (get_elem? m.widgets row)
    live ← delete widget m.live
    ok (record { items = remove_at row m.items; widgets = remove_at row m.widgets; live = live })

  unfoldable pub reset : SignalPlotListModel F → Outcome (SignalPlotListModel F)
  reset m =
      delete_all m.widgets m.live >>= λ live. ok (record { items = []; widgets = []; live = live })

  -- The destructor; what is left of the charts.
  unfoldable pub destroy : SignalPlotListModel F → Outcome (Store F)
  destroy m = delete_all m.widgets m.live

  unfoldable pub get_chart_at : ℕ → SignalPlotListModel F → Outcome (ChartView F)
  get_chart_at row m = do
    widget ← or_fault bad_access (get_elem? m.widgets row)
    or_fault bad_access (look_up widget m.live)
