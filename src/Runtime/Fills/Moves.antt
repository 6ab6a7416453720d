-- ===== src/Runtime/Fills/Moves.antt =====
-- What a fill does to the shares of a position.
use danta.Common.{
  String, ◌≡◌, ◌≢◌, refl, ap, subst, ◌∙◌, inl, inr, true, Option, none, some, arith, Bool-cases,
  Option-cases,
}
use danta.Common.Int.{ℤ, pos, ◌+ℤ◌, ◌-ℤ◌, ◌≤ℤ◌, eqb_ℤ, max_ℤ, -ℤ_parts, +ℤ_parts}
use danta.Common.Eq.{string_eq}
use danta.Common.Dict.{
  Distinct, lookup, insert, erase, lookup-insert_self, lookup-insert_ne, lookup-erase_self,
  lookup-erase_ne,
}
use danta.Common.Time.{Datetime}
use danta.Common.Result.{Exc, ok, err, Result-cases}
use danta.Common.Decimal.{Decimals}
use danta.Session.{IntentSide, OrderIntent, SymbolSession}
use danta.Orchestrator.Calls.{filled}
use danta.Runtime.{Core, ManagedPosition, apply_buy_fill, apply_sell_fill}
use danta.Runtime.Fills.{store, position_or_new, fill_buy, fill_sell, fill_position}

-- a count of shares after a fill
unfoldable pub next : IntentSide → ℤ → ℤ → ℤ
next IntentSide.buy n q = q +ℤ n
next IntentSide.sell n q = max_ℤ (pos 0) (q -ℤ n)
next IntentSide.cancel n q = q

pub next_mono : (side : IntentSide) (n a b : ℤ) → a ≤ℤ b → next side n a ≤ℤ next side n b
unfolding next max_ℤ
next_mono side n a b h = ground (arith, +ℤ_parts a n, +ℤ_parts b n, -ℤ_parts a n, -ℤ_parts b n)

module _ (D : Decimals) (show : ℤ → String) where
  unfoldable pub held : Option (ManagedPosition D) → ℤ
  held none = pos 0
  held (some p) = p.quantity

  unfoldable pub sellable : Option (ManagedPosition D) → ℤ
  sellable none = pos 0
  sellable (some p) = p.sellable_quantity

  pub filled-next :
      (side : IntentSide) (n remaining : ℤ) (s : SymbolSession)
      → ((filled D show side n remaining s).quantity ≡ next side n s.quantity)
        × ((filled D show side n remaining s).sellable_quantity ≡ next side n s.sellable_quantity)
  unfolding filled next
  filled-next IntentSide.buy n remaining s = (refl, refl)
  filled-next IntentSide.sell n remaining s = (refl, refl)
  filled-next IntentSide.cancel n remaining s = (refl, refl)

  apply_buy_fill_lem :
      (n : ℤ) (price : D.Decimal) (p p' : ManagedPosition D)
      → apply_buy_fill D n price p ≡ ok p'
      → (p'.quantity ≡ p.quantity +ℤ n) × (p'.sellable_quantity ≡ p.sellable_quantity +ℤ n)
  unfolding apply_buy_fill
  apply_buy_fill_lem n price p p' h = ground arith

  apply_sell_fill_lem :
      (n : ℤ) (p p' : ManagedPosition D)
      → apply_sell_fill D n p ≡ ok p'
      → (p'.quantity ≡ max_ℤ (pos 0) (p.quantity -ℤ n))
        × (p'.sellable_quantity ≡ max_ℤ (pos 0) (p.sellable_quantity -ℤ n))
  unfolding apply_sell_fill max_ℤ
  apply_sell_fill_lem n p p' h = ground (arith, -ℤ_parts p.quantity n)

  position_or_new-held :
      (i : OrderIntent) (at : Datetime) (o : Option (ManagedPosition D))
      → let p = position_or_new D show i at o in
        (p.quantity ≡ held o) × (p.sellable_quantity ≡ sellable o)
  unfolding held sellable
  position_or_new-held i at none = (refl, refl)
  position_or_new-held i at (some p) = (refl, refl)

  -- the position of a symbol, before and after
  abbrev pub Moved : (ℤ → ℤ) → Option (ManagedPosition D) → Option (ManagedPosition D) → Type 0
  Moved f o o' = (held o' ≡ f (held o)) × (sellable o' ≡ f (sellable o))

  -- a position that stands under a symbol moved there
  stored :
      (f : ℤ → ℤ) (symbol : String) (o : Option (ManagedPosition D)) (p : ManagedPosition D)
      (c c' : Core D)
      → (p.quantity ≡ f (held o)) × (p.sellable_quantity ≡ f (sellable o))
      → c'.positions ≡ insert symbol p c.positions
      → Moved f o (lookup symbol c'.positions)
  unfolding held sellable
  stored f symbol o p c c' h e =
      let found : lookup symbol c'.positions ≡ some p =
        ap (lookup symbol) e ∙ lookup-insert_self symbol p c.positions in
      (ap held found ∙ h.0, ap sellable found ∙ h.1)

  module _ (i : OrderIntent) (n : ℤ) (c : Core D) where
    erased :
        (p p' : ManagedPosition D)
        → Distinct c.positions
        → p.sellable_quantity ≤ℤ p.quantity
        → apply_sell_fill D n p ≡ ok p'
        → eqb_ℤ p'.quantity (pos 0) ≡ true
        → (pos 0 ≡ max_ℤ (pos 0) (p.quantity -ℤ n))
          × (pos 0 ≡ max_ℤ (pos 0) (p.sellable_quantity -ℤ n))
    unfolding apply_sell_fill max_ℤ
    erased p p' distinct below h empty =
        ground (arith, -ℤ_parts p.quantity n, -ℤ_parts p.sellable_quantity n)

    sell-ok :
        Distinct c.positions
        → sellable (lookup i.symbol c.positions) ≤ℤ held (lookup i.symbol c.positions)
        → (fill_sell D show i n c).0 ≡ ok tt
        → Moved
            (λ q. max_ℤ (pos 0) (q -ℤ n))
            (lookup i.symbol c.positions)
            (lookup i.symbol (fill_sell D show i n c).1.positions)
    unfolding fill_sell held sellable
    sell-ok distinct below h = elim (Option-cases (lookup i.symbol c.positions)) [
      | inl missing ↦ absurd (ground arith)
      | inr (p, there) ↦ elim (Result-cases (apply_sell_fill D n p)) [
        | inl (e, refused) ↦ absurd (ground arith)
        | inr (p', sold) ↦ elim (Bool-cases (eqb_ℤ p'.quantity (pos 0))) [
          | inl empty ↦
              let zero =
                erased p p' distinct (subst (λ o. sellable o ≤ℤ held o) there below) sold empty in
              let gone : (fill_sell D show i n c).1.positions ≡ erase i.symbol c.positions =
                ground arith in
              let found =
                ap (lookup i.symbol) gone ∙ lookup-erase_self i.symbol c.positions distinct in
              rw there (ap held found ∙ zero.0, ap sellable found ∙ zero.1)
          | inr rest ↦ rw there (
              stored (λ q. max_ℤ (pos 0) (q -ℤ n)) i.symbol (some p) p' c (fill_sell D show i n c).1
                (apply_sell_fill_lem n p p' sold) (ground arith))
        ]
      ]
    ]

    sell-err :
        (e : Exc)
        → (fill_sell D show i n c).0 ≡ err e
        → (fill_sell D show i n c).1.positions ≡ c.positions
    unfolding fill_sell
    sell-err e h = ground arith

    module _ (price : D.Decimal) (at : Datetime) where
      abbrev old_position : ManagedPosition D
      old_position = position_or_new D show i at (lookup i.symbol c.positions)

      buy-stored :
          (p : ManagedPosition D)
          → apply_buy_fill D n price old_position ≡ ok p
          → fill_buy D show i n price at c ≡ (ok tt, store D show i.symbol p c)
      unfolding fill_buy
      buy-stored p h = ground arith

      buy-refused :
          (e : Exc)
          → apply_buy_fill D n price old_position ≡ err e
          → fill_buy D show i n price at c ≡ (err e, store D show i.symbol old_position c)
      unfolding fill_buy
      buy-refused e h = ground arith

      buy-ok :
          (fill_buy D show i n price at c).0 ≡ ok tt
          → Moved
              (λ q. q +ℤ n)
              (lookup i.symbol c.positions)
              (lookup i.symbol (fill_buy D show i n price at c).1.positions)
      buy-ok h = elim (Result-cases (apply_buy_fill D n price old_position)) [
        | inl (e, refused) ↦ absurd (ground (arith, buy-refused e refused))
        | inr (p, bought) ↦
            let same = position_or_new-held i at (lookup i.symbol c.positions) in
            let more = apply_buy_fill_lem n price old_position p bought in
            stored (λ q. q +ℤ n) i.symbol (lookup i.symbol c.positions) p c
              (fill_buy D show i n price at c).1
              (more.0 ∙ ap (λ q. q +ℤ n) same.0, more.1 ∙ ap (λ q. q +ℤ n) same.1)
              (ap (λ x. x.1.positions) (buy-stored p bought))
      ]

      buy-err :
          (e : Exc)
          → (fill_buy D show i n price at c).0 ≡ err e
          → Moved
              (λ q. q)
              (lookup i.symbol c.positions)
              (lookup i.symbol (fill_buy D show i n price at c).1.positions)
      buy-err e h = elim (Result-cases (apply_buy_fill D n price old_position)) [
        | inl (e', refused) ↦
            stored (λ q. q) i.symbol (lookup i.symbol c.positions) old_position c
              (fill_buy D show i n price at c).1
              (position_or_new-held i at (lookup i.symbol c.positions))
              (ap (λ x. x.1.positions) (buy-refused e' refused))
        | inr (p, bought) ↦ absurd (ground (arith, buy-stored p bought))
      ]

  module _ (i : OrderIntent) (n : ℤ) (c : Core D) (k : String) where
    buy-others :
        (price : D.Decimal) (at : Datetime)
        → i.symbol ≢ k
        → lookup k (fill_buy D show i n price at c).1.positions ≡ lookup k c.positions
    buy-others price at other =
        let old = position_or_new D show i at (lookup i.symbol c.positions) in
        elim (Result-cases (apply_buy_fill D n price old)) [
          | inl (e, refused) ↦
              ap (λ x. lookup k x.1.positions) (buy-refused i n c price at e refused)
              ∙ lookup-insert_ne i.symbol k old c.positions other
          | inr (p, bought) ↦
              ap (λ x. lookup k x.1.positions) (buy-stored i n c price at p bought)
              ∙ lookup-insert_ne i.symbol k p c.positions other
        ]

    sell-others :
        i.symbol ≢ k → lookup k (fill_sell D show i n c).1.positions ≡ lookup k c.positions
    unfolding fill_sell
    sell-others other = elim (Option-cases (lookup i.symbol c.positions)) [
      | inl missing ↦ ground arith
      | inr (p, there) ↦ elim (Result-cases (apply_sell_fill D n p)) [
        | inl (e, refused) ↦ ground arith
        | inr (p', sold) ↦ ground (
          arith,
          lookup-insert_ne i.symbol k p' c.positions other,
          lookup-erase_ne i.symbol k c.positions other,
        )
      ]
    ]

  abbrev pub position_in : OrderIntent → Core D → Option (ManagedPosition D)
  position_in i c = lookup i.symbol c.positions

  module _ (i : OrderIntent) (n : ℤ) (price : D.Decimal) (at : Datetime) (c : Core D) where
    pub position-ok :
        Distinct c.positions
        → sellable (position_in i c) ≤ℤ held (position_in i c)
        → (fill_position D show i n price at c).0 ≡ ok tt
        → Moved
            (next i.side n)
            (position_in i c)
            (position_in i (fill_position D show i n price at c).1)
    unfolding fill_position next
    position-ok distinct below h =
        ground (arith, buy-ok i n c price at, sell-ok i n c distinct below)

    pub position-err :
        (e : Exc)
        → (fill_position D show i n price at c).0 ≡ err e
        → Moved (λ q. q) (position_in i c) (position_in i (fill_position D show i n price at c).1)
    unfolding fill_position
    position-err e h = ground (arith, buy-err i n c price at e, sell-err i n c e)

    -- The sessions do not change with the position, nor does the position of another symbol.
    pub position-others :
        (k : String)
        → i.symbol ≢ k
        → lookup k (fill_position D show i n price at c).1.positions ≡ lookup k c.positions
    unfolding fill_position
    position-others k other =
        ground (arith, buy-others i n c k price at other, sell-others i n c k other)

    pub position-sessions : (fill_position D show i n price at c).1.orchestrator ≡ c.orchestrator
    unfolding fill_position fill_buy fill_sell
    position-sessions = ground arith
