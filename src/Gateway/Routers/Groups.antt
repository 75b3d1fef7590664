-- ===== src/Gateway/Routers/Groups.antt =====
-- What the groups of api-gateway/internal/routers/routers.go let through to their handlers.
use l.Prelude.{ℕ, String, ◌≡◌, refl, ap, Bool, true, false, [], ◌∷◌, Option, ◌⊎◌, inl, inr}
use l.Errors.{error_text}
use l.Exec.{Result, ok, err}
use l.Gateway.Http.{UserInfo, Key, CtxValue, Request, Reply, find_value, with_value}
use l.Gateway.Mdwr.{
  request_id_mdwr, metrics, set_header, request_id_header, path_parts, svc_name, oper,
}
use l.Gateway.Users.{Validator}
use l.Gateway.Orders.{OrderBody, OrdersRpc, add_order, add_for, user_or_401, order_info, del_order}
use l.Gateway.Routers.{orders_group}

-- The context of a request that RequestID alone has seen has no user.
no_user :
    {W : Type 0} (merged : Bool) (id : String) (next : UserInfo → W → Reply × W) (w : W)
    → user_or_401 (find_value merged Key.user_key ((Key.req_key, CtxValue.text id) ∷ [])) next w
      ≡ (Reply.error 401 "user not authorized", w)
no_user true id next w = refl
no_user false id next w = refl

-- The request that RequestID passes on.
abbrev stamped : String → Request → Request
stamped id r = set_header request_id_header id (with_value Key.req_key (CtxValue.text id) r)

module _ {W : Type 0} (merged : Bool) (new_uuid : W → String × W) (count : String → W → W)
    (observe : String → String → W → W) where
  -- Nothing but RequestID and Metrics has acted on the state.
  abbrev pub Untouched : Request → W → W → Type 0
  Untouched r w w' =
      w' ≡ (orders_group merged new_uuid count observe (λ q v. (Reply.panic, v)) r w).1

  module _ (validator : Validator) (rpc : OrdersRpc W) where
    not_added :
        (bind : Request → Result OrderBody) (q : Request) (id : String) (w : W)
        (body : Result OrderBody)
        → q.context ≡ (Key.req_key, CtxValue.text id) ∷ []
        → bind q ≡ body
        → (code : ℕ) × (text : String) × ((code ≡ 400) ⊎ (code ≡ 401))
          × (add_order merged validator rpc bind q w ≡ (Reply.error code text, w))
    unfolding add_order
    not_added bind q id w (err e) context decoded =
        (400, error_text e, inl refl, rw (decoded, context))
    not_added bind q id w (ok b) context decoded = (
      401,
      "user not authorized",
      inr refl,
      rw (decoded, context) (no_user merged id (add_for merged validator rpc b) w),
    )

    -- A request that comes in with an empty context adds no order: the reply is an error 400 or 401,
    -- and no call of order-service is made, whatever its body and however the context keys
    -- compare.
    pub orders_group-add_order :
        (bind : Request → Result OrderBody) (r : Request) (w : W)
        → r.context ≡ []
        → let result =
            orders_group merged new_uuid count observe (add_order merged validator rpc bind) r w in
          (code : ℕ) × (text : String) × ((code ≡ 400) ⊎ (code ≡ 401))
          × (result.0 ≡ Reply.error code text)
          × Untouched r w result.1
    unfolding orders_group request_id_mdwr metrics
    orders_group-add_order bind r w fresh =
        let q = stamped (new_uuid w).0 r in
        let (code, text, which, same) =
          not_added bind q (new_uuid w).0 _ _
            (ap (λ c. (Key.req_key, CtxValue.text (new_uuid w).0) ∷ c) fresh) refl in
        (
          code,
          text,
          which,
          ap (λ p. p.0) same,
          ap (λ p. observe (svc_name (path_parts q)) (oper q.method (path_parts q)) p.1) same,
        )

    info_panics :
        (time_text : Option String → String) (q : Request) (id : String) (w : W)
        → q.context ≡ (Key.req_key, CtxValue.text id) ∷ []
        → order_info merged validator rpc time_text q w ≡ (Reply.panic, w)
    unfolding order_info
    info_panics time_text q id w context = rw context

    del_panics :
        (q : Request) (id : String) (w : W)
        → q.context ≡ (Key.req_key, CtxValue.text id) ∷ []
        → del_order merged validator rpc q w ≡ (Reply.panic, w)
    unfolding del_order
    del_panics q id w context = rw context

    -- A request for the data or the deletion of an order that comes in with an empty context makes
    -- its handler panic before any call of order-service.
    pub orders_group-panic :
        (time_text : Option String → String) (r : Request) (w : W)
        → r.context ≡ []
        → let info =
            orders_group merged new_uuid count observe
              (order_info merged validator rpc time_text)
              r
              w in
          let deletion =
            orders_group merged new_uuid count observe (del_order merged validator rpc) r w in
          ((info.0 ≡ Reply.panic) × Untouched r w info.1)
          × ((deletion.0 ≡ Reply.panic) × Untouched r w deletion.1)
    unfolding orders_group request_id_mdwr metrics
    orders_group-panic time_text r w fresh =
        let q = stamped (new_uuid w).0 r in
        let context = ap (λ c. (Key.req_key, CtxValue.text (new_uuid w).0) ∷ c) fresh in
        let info = info_panics time_text q (new_uuid w).0 _ context in
        let deletion = del_panics q (new_uuid w).0 _ context in
        (
          (
            ap (λ p. p.0) info,
            ap (λ p. observe (svc_name (path_parts q)) (oper q.method (path_parts q)) p.1) info,
          ),
          (
            ap (λ p. p.0) deletion,
            ap (λ p. observe (svc_name (path_parts q)) (oper q.method (path_parts q)) p.1) deletion,
          ),
        )
