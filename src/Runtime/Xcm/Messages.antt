-- ===== src/Runtime/Xcm/Messages.antt =====
-- The queues of messages that arrive (`cumulus_pallet_parachain_system`, `pallet_message_queue` and
-- `cumulus_pallet_xcmp_queue` of runtime/src/configs/mod.rs), with the origins and the routes of
-- runtime/src/configs/xcm_config.rs.
use subtrate.Base.{ℕ, ◌≡◌, ap, ◌∙◌, [], ◌∷◌, Option, none, some}
use subtrate.Frame.Dispatch.{AccountId}
use subtrate.Runtime.Xcm.Barrier.{Location, parachain, relay_location}
use subtrate.Runtime.Xcm.Origins.{native, ConverterApi, xcm_origin_to_transact_dispatch_origin}
use subtrate.Runtime.Xcm.Dispatching.{IsConverterApi, acts_as, dispatch-acts_as}
use subtrate.Runtime.Xcm.Router.{
  Queue, ump, xcmp, RouterApi, IsRouterApi, xcm_router, chain_of, route_iff,
}

-- Under which origin the message queue keeps a message.
pub data AggregateMessageOrigin : Type 0 where
  here : AggregateMessageOrigin
  parent : AggregateMessageOrigin
  sibling : ℕ → AggregateMessageOrigin

-- The message queue, of type `Q`, and the XCMP queue, `X`, with what wraps them: `D` takes messages
-- from the relay chain, `T` those of a sibling, `H` changes of a queue, and `M` executes messages.
pub record MessageApi (V Q X D T H M : Type 0) : Type 0 where
  pub message_queue : Q
  pub xcmp_queue : X
  pub enqueue_with_origin : Q → AggregateMessageOrigin → D
  pub enqueued : D → AggregateMessageOrigin
  pub para_id_to_sibling : ℕ → AggregateMessageOrigin
  pub transform_origin : Q → (ℕ → AggregateMessageOrigin) → T
  pub enqueued_from : T → ℕ → AggregateMessageOrigin
  pub narrow_origin_to_sibling : X → H
  -- The sibling that the XCMP queue is told of.
  pub told_of : H → AggregateMessageOrigin → Option ℕ
  pub process_xcm_message : M
  pub executes_at : M → AggregateMessageOrigin → Location V

module _ {V Q X D T H M : Type 0} (api : MessageApi V Q X D T H M) where
  -- The documented behaviour.
  pub record IsMessageApi : Type 0 where
    pub enqueued-with :
        (q : Q) (o : AggregateMessageOrigin) → api.enqueued (api.enqueue_with_origin q o) ≡ o
    pub para_id-sibling : (id : ℕ) → api.para_id_to_sibling id ≡ sibling id
    pub enqueued-from :
        (q : Q) (f : ℕ → AggregateMessageOrigin) (id : ℕ)
        → api.enqueued_from (api.transform_origin q f) id ≡ f id
    pub told-parent : (x : X) → api.told_of (api.narrow_origin_to_sibling x) parent ≡ none
    pub told-sibling :
        (x : X) (id : ℕ) → api.told_of (api.narrow_origin_to_sibling x) (sibling id) ≡ some id
    pub executes-parent : api.executes_at api.process_xcm_message parent ≡ relay_location
    pub executes-sibling :
        (id : ℕ)
        → api.executes_at api.process_xcm_message (sibling id)
          ≡ record { parents = 1; interior = parachain id ∷ [] }

  -- `RelayOrigin`
  abbrev pub relay_origin : AggregateMessageOrigin
  relay_origin = parent

  unfoldable pub dmp_queue : D
  dmp_queue = api.enqueue_with_origin api.message_queue relay_origin

  -- `XcmpQueue` of the XCMP queue's configuration.
  unfoldable pub inbound_xcmp_queue : T
  inbound_xcmp_queue = api.transform_origin api.message_queue api.para_id_to_sibling

  unfoldable pub queue_change_handler : H
  queue_change_handler = api.narrow_origin_to_sibling api.xcmp_queue

  unfoldable pub queue_paused_query : H
  queue_paused_query = api.narrow_origin_to_sibling api.xcmp_queue

  unfoldable pub message_processor : M
  message_processor = api.process_xcm_message

  -- A message that arrives, by the queue that leads back to its sender.
  abbrev pub arrives : Queue → AggregateMessageOrigin
  arrives ump = api.enqueued dmp_queue
  arrives (xcmp id) = api.enqueued_from inbound_xcmp_queue id

  abbrev pub sender : Queue → Location V
  sender q = api.executes_at message_processor (arrives q)

  abbrev pub reported : Queue → Option ℕ
  reported ump = none
  reported (xcmp id) = some id

  module _ (laws : IsMessageApi) where
    relay-arrives : arrives ump ≡ parent
    unfolding dmp_queue
    relay-arrives = laws.enqueued-with api.message_queue parent

    sibling-arrives : (id : ℕ) → arrives (xcmp id) ≡ sibling id
    unfolding inbound_xcmp_queue
    sibling-arrives id =
        laws.enqueued-from api.message_queue api.para_id_to_sibling id ∙ laws.para_id-sibling id

    -- The XCMP queue is told of the queues of siblings only, by their own identifiers.
    told-reported :
        (q : Queue)
        → (api.told_of queue_change_handler (arrives q) ≡ reported q)
          × (api.told_of queue_paused_query (arrives q) ≡ reported q)
    unfolding queue_change_handler queue_paused_query
    told-reported ump =
        rw relay-arrives (laws.told-parent api.xcmp_queue, laws.told-parent api.xcmp_queue)
    told-reported (xcmp id) =
        rw (sibling-arrives id)
          (laws.told-sibling api.xcmp_queue id, laws.told-sibling api.xcmp_queue id)

    sender-ump : sender ump ≡ relay_location
    unfolding message_processor
    sender-ump = ap (api.executes_at api.process_xcm_message) relay-arrives ∙ laws.executes-parent

    sender-xcmp : (id : ℕ) → sender (xcmp id) ≡ record { parents = 1; interior = parachain id ∷ [] }
    unfolding message_processor
    sender-xcmp id =
        ap (api.executes_at api.process_xcm_message) (sibling-arrives id) ∙ laws.executes-sibling id

module _ {V Q X D T H M A C W : Type 0} (api : MessageApi V Q X D T H M) (laws : IsMessageApi api)
    (converters : ConverterApi V A C) (preset : AccountId) (account : ℕ → AccountId)
    (converts : IsConverterApi converters preset account) (routers : RouterApi V W)
    (routes : IsRouterApi routers) where
  sender-acts_as :
      (q : Queue) → acts_as converters preset account native (sender api q) ≡ some (chain_of q)
  sender-acts_as ump = ap (acts_as converters preset account native) (sender-ump api laws)
  sender-acts_as (xcmp id) = ap (acts_as converters preset account native) (sender-xcmp api laws id)

  -- A message that arrives acts natively as the chain that sent it, the relay chain for a downward
  -- message and the sibling for one from its channel; a reply to it takes the queue back to that
  -- chain; and the XCMP queue hears of the message queue's changes for siblings only, under the
  -- sibling's own identifier.
  pub reply_returns :
      (q : Queue)
      → (converters.convert_origin
            (xcm_origin_to_transact_dispatch_origin converters)
            (sender api q)
            native
          ≡ some (chain_of q))
        × (routers.route (xcm_router routers) (sender api q) ≡ some q)
        × (api.told_of (queue_change_handler api) (arrives api q) ≡ reported api q)
        × (api.told_of (queue_paused_query api) (arrives api q) ≡ reported api q)
  reply_returns q =
      let acts =
        dispatch-acts_as converters preset account converts (sender api q) native
        ∙ sender-acts_as q in
      let told = told-reported api laws q in
      (
        acts,
        (route_iff converters preset account converts routers routes q (sender api q)).1 acts,
        told.0,
        told.1,
      )
