-- ===== src/Engine/Isolation.antt =====
-- `process_message` touches the book of the message's symbol and no other.
use options_engine.Prelude.{
  ◌≡◌, refl, ap, sym, ◌∙◌, ◌≢◌, Bool, Option, none, some, List, [], ◌∷◌, leb, Bool-cases,
  Option-cases, inl, inr, some-eq, none-ne,
}
use options_engine.Prelude.Arrays.{update_ne}
use options_engine.Types.{
  SymbolId, ExecutionReport, MarketDataMsg, MsgType, new_order, cancel_order, modify_order,
  heartbeat,
}
use options_engine.OrderBook.State.{Book}
use options_engine.OrderBook.Orders
use options_engine.Engine.{
  Engine, max_symbols, on_execution, on_executions, order_of, handle_new, put_book, dispatch,
  process_message,
}

on_executions-books :
    (e : Engine) (rs : List ExecutionReport) → (on_executions e rs).books ≡ e.books
unfolding on_executions on_execution
on_executions-books e [] = refl
on_executions-books e (r ∷ rs) = on_executions-books (on_execution e r) rs

handle_new-other :
    (e : Engine) (b : Book) (msg : MarketDataMsg) (id : SymbolId) {e' : Engine}
    → msg.symbol ≢ id
    → handle_new e b msg ≡ some e'
    → e'.books id ≡ e.books id
unfolding handle_new
handle_new-other e b msg id {e'} ne h = elim (Option-cases (Orders.add_order b (order_of e msg))) [
  | inl n ↦ none-ne (rw (n, handle_new) at h)
  | inr (out, n) ↦
      ap (λ x. x.books id) (sym (some-eq (rw (n, handle_new) at h)))
      ∙ ap (λ f. f id) (on_executions-books _ out.reports)
      ∙ update_ne e.books msg.symbol id (some out.book) ne
]

put_book-other :
    (e : Engine) (sym_id id : SymbolId) (r : Option (Book × Bool)) {e' : Engine}
    → sym_id ≢ id
    → put_book e sym_id r ≡ some e'
    → e'.books id ≡ e.books id
unfolding put_book
put_book-other e sym_id id none ne h = none-ne h
put_book-other e sym_id id (some (b, done)) ne h =
    ap (λ x. x.books id) (sym (some-eq h)) ∙ update_ne e.books sym_id id (some b) ne

dispatch-other :
    (t : MsgType) (e : Engine) (b : Book) (msg : MarketDataMsg) (id : SymbolId) {e' : Engine}
    → msg.symbol ≢ id
    → dispatch t e b msg ≡ some e'
    → e'.books id ≡ e.books id
unfolding dispatch
dispatch-other new_order e b msg id ne h = handle_new-other e b msg id ne h
dispatch-other cancel_order e b msg id ne h = put_book-other e msg.symbol id _ ne h
dispatch-other modify_order e b msg id ne h = put_book-other e msg.symbol id _ ne h
dispatch-other heartbeat e b msg id ne h = ap (λ x. x.books id) (sym (some-eq h))
dispatch-other (MsgType.unnamed k) e b msg id ne h = ap (λ x. x.books id) (sym (some-eq h))

-- When `process_message` returns, the book of every symbol but the message's is as it was.
pub process_message-other :
    (e : Engine) (msg : MarketDataMsg) (id : SymbolId) {e' : Engine}
    → msg.symbol ≢ id
    → process_message e msg ≡ some e'
    → e'.books id ≡ e.books id
unfolding process_message
process_message-other e msg id {e'} ne h = elim (Bool-cases (leb max_symbols msg.symbol)) [
  | inl t ↦ ap (λ x. x.books id) (sym (some-eq (rw (t, process_message) at h)))
  | inr t ↦ elim (Option-cases (e.books msg.symbol)) [
    | inl n ↦ ap (λ x. x.books id) (sym (some-eq (rw (t, n, process_message) at h)))
    | inr (b, n) ↦ dispatch-other msg.msg_type e b msg id ne (rw (t, n, process_message) at h)
  ]
]
