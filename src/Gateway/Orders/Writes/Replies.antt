-- ===== src/Gateway/Orders/Writes/Replies.antt =====
-- What the handlers of the orders group send, beside the replies of Gateway.Orders.
use Prim.Native.String.{◌++◌}
use Prim.Native.String.append
use text.Mathlib.TextLemmas.{append_assoc}
use l.Prelude.{String, Bool, List, [], ◌∷◌, Option, none, some, ◌≡◌, refl}
use l.Errors.{Error, error_text}
use l.Exec.{Result, ok, err}
use l.Gateway.Http.{UserInfo, Key, CtxValue, Request, Reply, value}
use l.Gateway.Service.Writer.{Writer, Spelling, fresh, refusal}
use l.Gateway.Users.{Validator, replied, refuse}
use l.Gateway.Users.Writes.{Shows, Agree, refuse-Agree, validated-Agree}
use l.Gateway.Users.Writes.Deletion.{status-Agree}
use l.Gateway.Orders.{
  OrderBody, OrdersRpc, add_fields, add_for, add_order, order_info, del_order, must_text, must_user,
  user_or_401,
}
use l.Gateway.Orders.Writes.{
  kept, write_text, write_user, write_or_401, write_json, write_for, write_bound, refused_again,
  info_fields, order_info_fields, del_order_fields, write_add_order, write_order_info,
  write_del_order,
}

module _ {W : Type 0} (spelling : Spelling) where
  -- The writer that is left shows the reply, or the handler panics in both, with the same state.
  pub Answers : Reply × W → Option Writer × W → Type 0
  Answers p (some x, v) = Agree spelling "" p (x, v)
  Answers p (none, v) = p ≡ (Reply.panic, v)

  kept-Answers : (p : Reply × W) (q : Writer × W) → Agree spelling "" p q → Answers p (kept q)
  unfolding Answers
  kept-Answers p (x, v) same = same

  text-Answers :
      (v : Option CtxValue) (next : String → W → Reply × W)
      (write_next : String → Option Writer × W) (w : W)
      → ((s : String) → Answers (next s w) (write_next s))
      → Answers (must_text v next w) (write_text v write_next w)
  unfolding Answers
  text-Answers (some (CtxValue.text s)) next write_next w same = same s
  text-Answers (some (CtxValue.user u)) next write_next w same = refl
  text-Answers none next write_next w same = refl

  user-Answers :
      (v : Option CtxValue) (next : UserInfo → W → Reply × W)
      (write_next : UserInfo → Option Writer × W) (w : W)
      → ((u : UserInfo) → Answers (next u w) (write_next u))
      → Answers (must_user v next w) (write_user v write_next w)
  unfolding Answers
  user-Answers (some (CtxValue.user u)) next write_next w same = same u
  user-Answers (some (CtxValue.text s)) next write_next w same = refl
  user-Answers none next write_next w same = refl

  or_401-Agree :
      (v : Option CtxValue) (next : UserInfo → W → Reply × W) (write_next : UserInfo → Writer × W)
      (w : W)
      → ((u : UserInfo) → Agree spelling "" (next u w) (write_next u))
      → Agree spelling "" (user_or_401 v next w) (write_or_401 v write_next fresh w)
  unfolding Shows error_text
  or_401-Agree (some (CtxValue.user u)) next write_next w same = same u
  or_401-Agree (some (CtxValue.text s)) next write_next w same = ((refl, append.nil _), refl)
  or_401-Agree none next write_next w same = ((refl, append.nil _), refl)

  json-Agree :
      {A : Type 0} (fields : A → List (String × String)) (answer : Result A × W)
      → Agree spelling ""
          (replied (λ res. Reply.json 200 (fields res) none) answer)
          (write_json spelling fields answer fresh)
  unfolding Shows
  json-Agree fields (err e, w) = refuse-Agree spelling "" 500 e w
  json-Agree fields (ok res, w) = ((refl, append.nil _), refl)

  again-Agree :
      (refused : Option Error) (next : Reply × W) (write_next : Writer → W → Writer × W) (w : W)
      → Agree spelling "" next (write_next fresh w)
      → Agree spelling ""
          (elim refused [
            | some e ↦ (Reply.error 400 (error_text e ++ ("\n" ++ error_text e)), w)
            | none ↦ next
          ])
          (refused_again (refusal refused fresh) write_next w)
  unfolding Shows
  again-Agree none next write_next w same = same
  again-Agree (some e) next write_next w same = ((refl, twice), refl)
    where
      twice :
          ("" ++ (error_text e ++ "\n")) ++ (error_text e ++ "\n")
          ≡ (error_text e ++ ("\n" ++ error_text e)) ++ "\n"
      twice = rw (
        append.nil (error_text e ++ "\n"),
        append_assoc (error_text e) "\n" (error_text e ++ "\n"),
        append_assoc (error_text e) ("\n" ++ error_text e) "\n",
        append_assoc "\n" (error_text e) "\n",
      )

module _ {W : Type 0} (spelling : Spelling) (merged : Bool) (validator : Validator)
    (rpc : OrdersRpc W) where
  for-Agree :
      (b : OrderBody) (w : W) (user : UserInfo)
      → Agree spelling ""
          (add_for merged validator rpc b user w)
          (write_for spelling merged validator rpc b fresh w user)
  for-Agree b w user =
      validated-Agree spelling "" (validator (add_fields merged validator rpc user b)) _ _ w
        (json-Agree spelling (λ res. ("id", res.id) ∷ []) (rpc.add_order _ w))

  bound-Agree :
      (body : Result OrderBody) (user : Option CtxValue) (w : W)
      → Agree spelling ""
          (elim body [
            | err e ↦ refuse 400 e w
            | ok b ↦ user_or_401 user (add_for merged validator rpc b) w
          ])
          (write_bound spelling merged validator rpc body user fresh w)
  bound-Agree (err e) user w = refuse-Agree spelling "" 400 e w
  bound-Agree (ok b) user w =
      or_401-Agree spelling user (add_for merged validator rpc b) _ w (for-Agree b w)

  -- What addOrder, orderInfo and delOrder send for a request, each in the order of its calls on the
  -- writer, is the reply of the handler, for which it leaves the same state: one status, the header
  -- that belongs to it, and the body, in which delOrder writes the error of a refused validation
  -- twice. They panic where the reply is a panic, and there alone.
  pub orders_handlers-Answers :
      (bind : Request → Result OrderBody) (time_text : Option String → String) (r : Request) (w : W)
      → Answers spelling
          (add_order merged validator rpc bind r w)
          (write_add_order spelling merged validator rpc bind r fresh w)
        × Answers spelling
            (order_info merged validator rpc time_text r w)
            (write_order_info spelling merged validator rpc time_text r fresh w)
        × Answers spelling
            (del_order merged validator rpc r w)
            (write_del_order spelling merged validator rpc r fresh w)
  unfolding add_order order_info del_order write_add_order write_order_info write_del_order
  orders_handlers-Answers bind time_text r w =
      let ui = value merged r (Key.name "userInfo") in
      let rq = value merged r Key.req_key in
      (
        text-Answers spelling rq _ _ w
            (λ s. kept-Answers spelling _ _ (bound-Agree (bind r) (value merged r Key.user_key) w)),
        user-Answers spelling ui _ _ w (λ user. text-Answers spelling rq _ _ w λ s.
            kept-Answers spelling _ _ (
              validated-Agree spelling ""
                (validator (order_info_fields spelling merged validator rpc r user)) _ _ w
                (json-Agree spelling (info_fields spelling merged validator rpc time_text)
                  (rpc.order_info _ w)))),
        user-Answers spelling ui _ _ w (λ user. text-Answers spelling rq _ _ w λ s.
            kept-Answers spelling _ _ (
              again-Agree spelling
                (validator (del_order_fields spelling merged validator rpc r user)) _ _ w
                (status-Agree spelling "" (rpc.del_order _ w)))),
      )
