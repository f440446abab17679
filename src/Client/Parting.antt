-- ===== src/Client/Parting.antt =====
-- What a round of `_cdtp_client_handle` in src/client.c can do to the client: nothing, or disconnect it.
use cdtp.Common.{
  ℕ, ◌≡◌, refl, ◌⊎◌, inl, inr, Bool, true, false, not, List, [], ◌∷◌, Option, none, some, length,
  ◌==◌, Ensures, bind-Ensures, then-Ensures, if-Ensures, arith,
}
use cdtp.Crypto.Evp.{Evp}
use cdtp.Wire.{decode_message_size}
use cdtp.Transport.{Errnos, Failure}
use cdtp.Client.{Client, disconnect}
use cdtp.Client.Events.{call_on_recv}
use cdtp.Client.Handle.{HandleCalls, hang_up, handle_body, handle_size, handle_round}

pub disconnect-done :
    (close_failure : Failure) (self : Bool) (join_code detach_code : ℕ) (c : Client)
    → c.connected ≡ true
    → Ensures
        (disconnect close_failure self join_code detach_code c)
        (λ r. (r.0.connected ≡ false) × (r.0.is_done ≡ true))
unfolding disconnect
disconnect-done close_failure self join_code detach_code c d = ground arith

-- The client is as it was, or has been disconnected.
abbrev pub Parts : Client → Client → Type 0
Parts c c' = (c' ≡ c) ⊎ ((c'.connected ≡ false) × (c'.is_done ≡ true))

module _ (self : ℕ) where
  hang_up-Parts :
      (calls : HandleCalls) (c : Client)
      → c.connected ≡ true
      → Ensures (hang_up self calls c) (λ t. Parts c t.0)
  unfolding hang_up
  hang_up-Parts calls c on =
      then-Ensures (disconnect calls.close_failure true 0 calls.detach_code c) _
        (λ r. (r.0.connected ≡ false) × (r.0.is_done ≡ true)) (λ t. Parts c t.0)
        (disconnect-done calls.close_failure true 0 calls.detach_code c on) λ r parted. inr parted

  module _ {Ctx Pkey : Type 0} (evp : Evp Ctx Pkey) (errnos : Errnos) where
    handle_body-Parts :
        (calls : HandleCalls) (c : Client) (msg_size : ℕ) (second : Option (List ℕ))
        → c.connected ≡ true
        → Ensures (handle_body self evp errnos calls c msg_size second) (λ t. Parts c t.0)
    unfolding handle_body
    handle_body-Parts calls c msg_size none on =
        if-Ensures (errnos.reset calls.second.errno) _ _ (λ t. Parts c t.0)
          (hang_up-Parts calls c on) (inl refl)
    handle_body-Parts calls c msg_size (some []) on = hang_up-Parts calls c on
    handle_body-Parts calls c msg_size (some (b ∷ bytes)) on =
        if-Ensures (not (length (b ∷ bytes) == msg_size)) _ _ (λ t. Parts c t.0) (inl refl)
          (bind-Ensures
            (call_on_recv calls.spawn.return_code calls.spawn.junk self calls.spawn.pointer evp c
              (b ∷ bytes) msg_size)
            _ _ λ received. inl refl)

    handle_size-Parts :
        (calls : HandleCalls) (c : Client) (buffer : List ℕ) (first : Option (List ℕ))
        → c.connected ≡ true
        → Ensures (handle_size self evp errnos calls c buffer first) (λ t. Parts c t.0)
    unfolding handle_size
    handle_size-Parts calls c buffer none on =
        if-Ensures (errnos.reset calls.first.errno) _ _ (λ t. Parts c t.0)
          (hang_up-Parts calls c on)
          (if-Ensures (errnos.again calls.first.errno) _ _ (λ t. Parts c t.0) (inl refl) (inl refl))
    handle_size-Parts calls c buffer (some []) on = hang_up-Parts calls c on
    handle_size-Parts calls c buffer (some (b ∷ bytes)) on =
        bind-Ensures (decode_message_size buffer) _ _
          λ msg_size. handle_body-Parts calls c msg_size calls.second.bytes on

    pub handle_round-Parts :
        (calls : HandleCalls) (c : Client) (buffer : List ℕ)
        → c.connected ≡ true
        → Ensures (handle_round self evp errnos calls c buffer) (λ t. Parts c t.0)
    unfolding handle_round
    handle_round-Parts calls c buffer on =
        if-Ensures (not c.connected) _ _ (λ t. Parts c t.0) (inl refl)
          (handle_size-Parts calls c buffer calls.first.bytes on)

    pub handle_round-frozen :
        (calls : HandleCalls) (c : Client) (buffer : List ℕ)
        → c.connected ≡ false
        → Ensures (handle_round self evp errnos calls c buffer) (λ t. t.0 ≡ c)
    unfolding handle_round
    handle_round-frozen calls c buffer off = simp off refl
