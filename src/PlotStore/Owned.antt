-- ===== src/PlotStore/Owned.antt =====
-- The pointers of the list of plots against the charts themselves.
use can_tracer.Prelude.{
  ℕ, zero, suc, ◌<◌, ◌≡◌, ◌≢◌, refl, sym, ap, ◌∙◌, true, false, ◌==◌, ==_iff, Option, none, some,
  Bool-cases, Option-cases, List, [], ◌∷◌, ◌++◌, map, All, All-append, length, get_elem?,
  get_elem?-some, inl, inr, arith,
}
use can_tracer.Prelude.Outcome.{Outcome, Fault, fault, failure, ok, bad_access, or_fault, ◌>>=◌}
use mathlib.Core.List.{map-append}
use can_tracer.Qt.{Double}
use can_tracer.Can.{CanSignal}
use can_tracer.Window
use can_tracer.Window.{SignalPlotItem, ChartView, MainWindow, remove_at}
use can_tracer.Window.Removed.{All-remove_at, map-remove_at}
use can_tracer.PlotStore.{
  Store, SignalPlotListModel, look_up, delete, delete_all, add_item, remove_item, reset, destroy,
  get_chart_at,
}

module _ {F : Type 0} where
  abbrev pub addresses : Store F → List ℕ
  addresses live = map (λ (c : ℕ × ChartView F). c.0) live

  abbrev pub charts : Store F → List (ChartView F)
  charts live = map (λ (c : ℕ × ChartView F). c.1) live

abbrev pub IsFresh : ℕ → List ℕ → Type 0
IsFresh a as' = All (λ b. b ≢ a) as'

abbrev pub NoDup : List ℕ → Type 0
NoDup [] = Unit
NoDup (a ∷ as') = IsFresh a as' × NoDup as'

NoDup-remove_at : (row : ℕ) (as' : List ℕ) → NoDup as' → NoDup (remove_at row as')
NoDup-remove_at row [] h = tt
NoDup-remove_at zero (a ∷ as') h = h.1
NoDup-remove_at (suc row) (a ∷ as') h =
    (All-remove_at (λ b. b ≢ a) row as' h.0, NoDup-remove_at row as' h.1)

NoDup-append : (as' : List ℕ) (a : ℕ) → NoDup as' → IsFresh a as' → NoDup (as' ++ a ∷ [])
NoDup-append [] a h f = (tt, tt)
NoDup-append (b ∷ as') a h f =
    (All-append (λ c. c ≢ b) as' (a ∷ []) h.0 ((λ e. f.0 (sym e)), tt), NoDup-append as' a h.1 f.1)

of_some : {a b : ℕ} → Option.some a ≡ Option.some b → a ≡ b
of_some e = cc

same_address : (a b : ℕ) → Option.some a ≡ Option.some b → (a == b) ≡ true
same_address a b e = (==_iff a b).1 (of_some e)

fresh_at :
    (as' : List ℕ) (a b row : ℕ) → IsFresh a as' → get_elem? as' row ≡ some b → (a == b) ≡ false
fresh_at [] a b row f e = cc
fresh_at (c ∷ as') a b zero f e = elim (Bool-cases (a == b)) [
  | inl same ↦ absurd (f.0 (of_some e ∙ sym ((==_iff a b).0 same)))
  | inr different ↦ different
]
fresh_at (c ∷ as') a b (suc row) f e = fresh_at as' a b row f.1 e

module _ {F : Type 0} where
  -- A pointer in the list is deleted with its row.
  delete_at :
      (live : Store F) (row a : ℕ)
      → NoDup (addresses live)
      → get_elem? (addresses live) row ≡ some a
      → delete a live ≡ ok (remove_at row live)
  delete_at [] row a h e = cc
  delete_at (c ∷ live) zero a h e = rw (same_address c.0 a e) refl
  delete_at (c ∷ live) (suc row) a h e =
      rw (fresh_at (addresses live) c.0 a row h.0 e, delete_at live row a h.1 e) refl

  delete_all_of : (live : Store F) → delete_all (addresses live) live ≡ ok []
  delete_all_of [] = refl
  delete_all_of (c ∷ live) = rw (same_address c.0 c.0 refl) (delete_all_of live)

  look_up_at :
      (live : Store F) (row a : ℕ)
      → NoDup (addresses live)
      → get_elem? (addresses live) row ≡ some a
      → look_up a live ≡ get_elem? (charts live) row
  look_up_at [] row a h e = cc
  look_up_at (c ∷ live) zero a h e = rw (same_address c.0 a e) refl
  look_up_at (c ∷ live) (suc row) a h e =
      rw (fresh_at (addresses live) c.0 a row h.0 e) (look_up_at live row a h.1 e)

  charts-none :
      (live : Store F) (row : ℕ)
      → get_elem? (addresses live) row ≡ none
      → get_elem? (charts live) row ≡ none
  charts-none [] row e = refl
  charts-none (c ∷ live) zero e = cc
  charts-none (c ∷ live) (suc row) e = charts-none live row e

  addresses-none :
      (live : Store F) (row : ℕ)
      → get_elem? (charts live) row ≡ none
      → get_elem? (addresses live) row ≡ none
  addresses-none [] row e = refl
  addresses-none (c ∷ live) zero e = cc
  addresses-none (c ∷ live) (suc row) e = addresses-none live row e

  addresses-some :
      (live : Store F) (row : ℕ) {view : ChartView F}
      → get_elem? (charts live) row ≡ some view
      → (a : ℕ) × (get_elem? (addresses live) row ≡ some a)
  addresses-some [] row e = cc
  addresses-some (c ∷ live) zero e = (c.0, refl)
  addresses-some (c ∷ live) (suc row) e = addresses-some live row e

  chart_at :
      (live : Store F) (row : ℕ)
      → NoDup (addresses live)
      → (or_fault bad_access (get_elem? (addresses live) row) >>= λ a.
          or_fault bad_access (look_up a live))
        ≡ or_fault bad_access (get_elem? (charts live) row)
  chart_at live row h = elim (Option-cases (get_elem? (addresses live) row)) [
    | inl e ↦ rw (e, charts-none live row e) refl
    | inr (a, e) ↦ rw (e, look_up_at live row a h e) refl
  ]

  -- The pointers lead to the charts of the window, in the same order, each chart has one pointer, and every
  -- chart that is alive has one.
  pub record Represents (m : SignalPlotListModel F) (w : MainWindow F) : Type 0 where
    pub items : m.items ≡ w.items
    pub owned : addresses m.live ≡ m.widgets
    pub distinct : NoDup m.widgets
    pub shown : charts m.live ≡ w.widgets

  -- Both fail in the same way, or none does and the charts of the one are those of the other.
  pub data Agrees : Outcome (SignalPlotListModel F) → Outcome (MainWindow F) → Type 0 where
    both_ok : {m : SignalPlotListModel F} {w : MainWindow F} → Represents m w → Agrees (ok m) (ok w)
    both_fail : {x : Fault} → Agrees (fault x) (fault x)

  Agrees-failure :
      {a : Outcome (SignalPlotListModel F)} {b : Outcome (MainWindow F)}
      → Agrees a b
      → failure a ≡ failure b
  Agrees-failure (both_ok h) = refl
  Agrees-failure both_fail = refl

  -- A chart that was just made.
  abbrev pub with_chart : ℕ → ChartView F → SignalPlotListModel F → SignalPlotListModel F
  with_chart a view m = record m { live = m.live ++ (a, view) ∷ [] }

module _ {F : Type 0} ⦃d : Double F⦄ where
  add_item-Represents :
      (id a : ℕ) (signal : CanSignal F) (view : ChartView F) (m : SignalPlotListModel F)
      (w : MainWindow F)
      → Represents m w
      → IsFresh a m.widgets
      → Represents (add_item id signal a (with_chart a view m)) (Window.add_item id signal view w)
  unfolding add_item Window.add_item
  add_item-Represents id a signal view m w h fresh = record {
    items = ap (λ items. items ++ (record { msg_id = id; signal = signal } ∷ [])) h.items;
    owned =
        map-append (λ (c : ℕ × ChartView F). c.0) m.live ((a, view) ∷ [])
        ∙ ap (λ widgets. widgets ++ a ∷ []) h.owned;
    distinct = NoDup-append m.widgets a h.distinct fresh;
    shown =
        map-append (λ (c : ℕ × ChartView F). c.1) m.live ((a, view) ∷ [])
        ∙ ap (λ views. views ++ view ∷ []) h.shown;
  }

  -- A row with a chart.
  remove_row-Agrees :
      (row : ℕ) (m : SignalPlotListModel F) (w : MainWindow F) {item : SignalPlotItem F}
      {view : ChartView F}
      → Represents m w
      → get_elem? w.items row ≡ some item
      → get_elem? w.widgets row ≡ some view
      → Agrees (remove_item (some row) m) (Window.remove_item (some row) w)
  unfolding remove_item Window.remove_item
  remove_row-Agrees row m w {item} {view} h listed drawn =
      let (a, found) = addresses-some m.live row {view = view} (rw h.shown drawn) in
      let pointer : get_elem? m.widgets row ≡ some a = rw (sym h.owned) found in
      let held : get_elem? m.items row ≡ some item = rw h.items listed in
      let distinct : NoDup (addresses m.live) = rw h.owned h.distinct in
      let deleted = delete_at m.live row a distinct found in
      rw (held, pointer, deleted, listed, drawn)
        (both_ok (record {
          items = ap (remove_at row) h.items;
          owned =
              map-remove_at (λ (c : ℕ × ChartView F). c.0) row m.live ∙ ap (remove_at row) h.owned;
          distinct = NoDup-remove_at row m.widgets h.distinct;
          shown =
              map-remove_at (λ (c : ℕ × ChartView F). c.1) row m.live ∙ ap (remove_at row) h.shown;
        }))

  remove_item-Agrees :
      (index : Option ℕ) (m : SignalPlotListModel F) (w : MainWindow F)
      → Represents m w
      → Agrees (remove_item index m) (Window.remove_item index w)
  unfolding remove_item Window.remove_item
  remove_item-Agrees none m w h = both_ok h
  remove_item-Agrees (some row) m w h = elim (Option-cases (get_elem? w.items row)) [
    | inl e ↦
        let none_held : get_elem? m.items row ≡ none = rw h.items e in rw (e, none_held) both_fail
    | inr (item, e) ↦ elim (Option-cases (get_elem? w.widgets row)) [
      | inl f ↦
          let held : get_elem? m.items row ≡ some item = rw h.items e in
          let no_pointer : get_elem? m.widgets row ≡ none =
            rw (sym h.owned) (addresses-none m.live row (rw h.shown f)) in
          rw (e, held, f, no_pointer) both_fail
      | inr (view, f) ↦ remove_row-Agrees row m w h e f
    ]
  ]

  remove_item_total :
      (row : ℕ) (m : SignalPlotListModel F) (w : MainWindow F)
      → Represents m w
      → row < length w.items
      → length w.items ≡ length w.widgets
      → failure (remove_item (some row) m) ≡ none
  unfolding Window.remove_item
  remove_item_total row m w h lt same =
      let (item, listed) = get_elem?-some w.items row lt in
      let (view, drawn) = get_elem?-some w.widgets row (omega (arith, lt, same)) in
      Agrees-failure (remove_item-Agrees (some row) m w h) ∙ rw (listed, drawn) refl

  all_deleted :
      (m : SignalPlotListModel F) (w : MainWindow F)
      → Represents m w
      → delete_all m.widgets m.live ≡ ok []
  all_deleted m w h = rw (sym h.owned) (delete_all_of m.live)

  get_chart_at_lem :
      (row : ℕ) (m : SignalPlotListModel F) (w : MainWindow F)
      → Represents m w
      → get_chart_at row m ≡ or_fault bad_access (get_elem? w.widgets row)
  unfolding get_chart_at
  get_chart_at_lem row m w h =
      let distinct : NoDup (addresses m.live) = rw h.owned h.distinct in
      rw (sym h.owned, sym h.shown) (chart_at m.live row distinct)

  -- If each pointer of the list leads to a chart of its own and there is no other chart, then every operation
  -- keeps that, and does to the charts what it does in the model of the window, where they stand in the list:
  -- to add a chart that was just made, to remove a row, to remove all rows and to look up a chart. To remove a row
  -- fails exactly where it does there, and not for a row of the list if there are as many charts as
  -- items. No chart is deleted twice or used after it was deleted, and none is left when all rows are removed or
  -- the list ends.
  pub operations-Represents :
      (m : SignalPlotListModel F) (w : MainWindow F)
      → Represents m w
      → ((id a : ℕ) (signal : CanSignal F) (view : ChartView F)
          → IsFresh a m.widgets
          → Represents
              (add_item id signal a (with_chart a view m))
              (Window.add_item id signal view w))
        × ((index : Option ℕ) → Agrees (remove_item index m) (Window.remove_item index w))
        × ((row : ℕ)
            → row < length w.items
            → length w.items ≡ length w.widgets
            → failure (remove_item (some row) m) ≡ none)
        × ((m' : SignalPlotListModel F) × (reset m ≡ ok m')
            × (m'.live ≡ [])
            × Represents m' (Window.reset w))
        × (destroy m ≡ ok [])
        × ((row : ℕ) → get_chart_at row m ≡ or_fault bad_access (get_elem? w.widgets row))
  unfolding reset Window.reset destroy
  operations-Represents m w h = (
    (λ id a signal view fresh. add_item-Represents id a signal view m w h fresh),
    (λ index. remove_item-Agrees index m w h),
    (λ row lt same. remove_item_total row m w h lt same),
    (
      record { items = []; widgets = []; live = [] },
      rw (all_deleted m w h) refl,
      refl,
      record { items = refl; owned = refl; distinct = tt; shown = refl },
    ),
    all_deleted m w h,
    (λ row. get_chart_at_lem row m w h),
  )
