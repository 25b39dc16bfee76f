-- ===== src/Socket/Secure/Lifetime.antt =====
-- The objects of OpenSSL that a layer holds.
use libcoda_net.Base.{ℕ, Option, none, some, ◌++◌, ◌≡◌, ◌∙◌, refl, ap}
use libcoda_net.Socket.Ownership.{owned, release-owned}
use libcoda_net.Socket.Secure.{
  Layer, Ssl, detached, take_context, take_handle, after_take, init, shutdown, assign_layer,
}

-- Those of a layer besides others.
abbrev pub held : Layer → Ssl → Ssl
held l others = record {
  handles = owned l.handle ++ others.handles;
  contexts = owned l.context ++ others.contexts;
}

take_handle-held :
    (made handle context : Option ℕ) (others : Ssl)
    → let l : Layer = record { handle = handle; context = context } in
      let (ok, l', o') = take_handle made l (held l others) in o' ≡ held l' others
unfolding take_handle
take_handle-held made (some h) context others = refl
take_handle-held none none context others = refl
take_handle-held (some h) none context others = refl

init-held :
    (made_context made_handle handle context : Option ℕ) (others : Ssl)
    → let l : Layer = record { handle = handle; context = context } in
      let (ok, l', o') = init made_context made_handle l (held l others) in o' ≡ held l' others
unfolding init after_take take_context
init-held made_context made_handle handle (some c) others =
    take_handle-held made_handle handle (some c) others
init-held none made_handle handle none others = refl
init-held (some c) made_handle handle none others =
    take_handle-held made_handle handle (some c) others

shutdown-held : (l : Layer) (others : Ssl) → shutdown l (held l others) ≡ (detached, others)
unfolding shutdown
shutdown-held l others = λ i. (
  detached,
  record {
    handles = release-owned l.handle others.handles i;
    contexts = release-owned l.context others.contexts i;
  },
)

-- A layer holds the objects of OpenSSL that it made, whatever is answered: setting it up, also where
-- it throws, leaves besides the objects of others exactly those that the layer then holds, shutting
-- it down frees these and no other, and assigning another layer frees them and takes over the other
-- layer's.
pub layer-held :
    (made_context made_handle : Option ℕ) (l other : Layer) (others : Ssl)
    → let (ok, l', o') = init made_context made_handle l (held l others) in
      (o' ≡ held l' others)
      × (shutdown l' o' ≡ (detached, others))
      × (assign_layer l other (held l (held other others)) ≡ (other, detached, held other others))
unfolding assign_layer
layer-held made_context made_handle l other others =
    let (ok, l', o') = init made_context made_handle l (held l others) in
    let e = init-held made_context made_handle l.handle l.context others in
    (
      e,
      ap (shutdown l') e ∙ shutdown-held l' others,
      ap (λ r. (other, detached, r.1)) (shutdown-held l (held other others)),
    )
