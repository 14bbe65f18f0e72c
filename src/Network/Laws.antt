-- ===== src/Network/Laws.antt =====
-- The monad of the network: what a sequence of calls can do to the scripts.
use bootpd.Common.{
  ℕ, ◌+◌, ◌≤◌, ◌<◌, ◌≡◌, refl, List, [], ◌∷◌, ◌++◌, Bool, true, false, Bytes, length, Result, ok,
  throw, terminated, fault, stuck, Calm, arith, if◌then◌else◌,
}
use bootpd.Network.{
  Address, Arrival, arrives, World, Io, and_then, lift, stop_requested, recv, send_bits, send,
}

-- The call returns or throws. Of the `n` arrivals it leaves `d` fewer where it returns, and no more
-- where it throws.
abbrev pub Bounded {ℓ} : {A : Type ℓ} → ℕ → ℕ → Result A × World → Type 0
Bounded d n (ok a, w) = length w.recvs + d ≤ n
Bounded d n (throw e, w) = length w.recvs ≤ n
Bounded d n (terminated, w) = ⊥
Bounded d n (fault, w) = ⊥
Bounded d n (stuck, w) = ⊥

pub Bounded-bind {ℓ κ} :
    {A : Type ℓ} {B : Type κ} (d e n : ℕ) (r : Result A × World) (f : A → Io B)
    → Bounded d n r
    → ((a : A) (w : World) → length w.recvs + d ≤ n → Bounded e n (f a w))
    → Bounded e n (and_then r f)
Bounded-bind d e n (ok a, w) f h g = g a w h
Bounded-bind d e n (throw x, w) f h g = h
Bounded-bind d e n (terminated, w) f h g = h
Bounded-bind d e n (fault, w) f h g = h
Bounded-bind d e n (stuck, w) f h g = h

pub Bounded-if {ℓ} :
    {A : Type ℓ} (d n : ℕ) (b : Bool) (x y : Io A) (w : World)
    → Bounded d n (x w)
    → Bounded d n (y w)
    → Bounded d n ((if b then x else y) w)
Bounded-if d n true x y w hx hy = hx
Bounded-if d n false x y w hx hy = hy

pub Bounded-lift {ℓ} :
    {A : Type ℓ} (d n : ℕ) (r : Result A) (w : World)
    → Calm r
    → length w.recvs + d ≤ n
    → Bounded d n (lift r w)
Bounded-lift d n (ok a) w c h = h
Bounded-lift d n (throw e) w c h = omega arith
Bounded-lift d n terminated w c h = c
Bounded-lift d n fault w c h = c
Bounded-lift d n stuck w c h = c

pub stop_requested-Bounded :
    (d n : ℕ) (w : World) → length w.recvs + d ≤ n → Bounded d n (stop_requested w)
unfolding stop_requested
stop_requested-Bounded d n w h = ground arith

pub send_bits-Bounded :
    (bits : Bytes) (target : Address) (d n : ℕ) (w : World)
    → length w.recvs + d ≤ n
    → Bounded d n (send_bits bits target w)
unfolding send_bits
send_bits-Bounded bits target d n w h = ground arith

pub send-Bounded :
    (packet : Result Bytes) (target : Address) (d n : ℕ) (w : World)
    → Calm packet
    → length w.recvs + d ≤ n
    → Bounded d n (send packet target w)
unfolding send
send-Bounded packet target d n w c h =
    Bounded-bind d d n (lift packet w) _ (Bounded-lift d n packet w c h)
      λ bits w' h'. send_bits-Bounded bits target d n w' h'

pub recv-Bounded : (n : ℕ) (w : World) → length w.recvs ≤ n → Bounded 1 n (recv w)
unfolding recv
recv-Bounded n w h = ground arith

-- A network that delivers every datagram, with no stop requested.
abbrev pub quiet : List Arrival → List (Address × Bytes) → World
quiet recvs sent = record { recvs = recvs; sends = []; polls = []; sent = sent }

pub stop_requested-quiet :
    (recvs : List Arrival) (sent : List (Address × Bytes))
    → stop_requested (quiet recvs sent) ≡ (ok false, quiet recvs sent)
unfolding stop_requested
stop_requested-quiet recvs sent = refl

pub send-quiet :
    (packet : Result Bytes) (bits : Bytes) (target : Address) (recvs : List Arrival)
    (sent : List (Address × Bytes))
    → packet ≡ ok bits
    → send packet target (quiet recvs sent) ≡ (ok tt, quiet recvs (sent ++ (target, bits) ∷ []))
unfolding send send_bits
send-quiet packet bits target recvs sent e = rw e

pub recv-arrives :
    (source : Address) (bits : Bytes) (recvs : List Arrival) (sent : List (Address × Bytes))
    → 0 < length bits
    → recv (quiet (arrives source bits ∷ recvs) sent) ≡ (ok (source, bits), quiet recvs sent)
unfolding recv
recv-arrives source [] recvs sent h = absurd (omega arith)
recv-arrives source (b ∷ bits) recvs sent h = refl
