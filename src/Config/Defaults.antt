-- ===== src/Config/Defaults.antt =====
-- What the defaults give, and what a configuration makes of the UDP listener.
use Prim.Native.String.{String}
use aerocast.Prelude.{ℕ, zero, suc, ◌*◌, ◌≡◌, ◌∙◌, refl, ap, List, [], none, some, arith, All}
use aerocast.Prelude.Int.{ℤ, pos, negsuc, ◌*ℤ◌, ◌+ℤ◌}
use aerocast.Transport.Udp
use aerocast.Transport.Udp.{Listener, Turn, new_listener, make_len, buffer_size, run}
use aerocast.Transport.Udp.Batches.{IsBounded, Took}
use aerocast.Transport.Udp.Turns.{IsHonest, datagrams, ending, run-Took}
use aerocast.Config.{
  FileConfig, UdpConfig, apply_defaults, text_or, int_or, float_or, validate, udp_transport_config,
}

text_or_twice : (s d : String) → text_or (text_or s d) d ≡ text_or s d
unfolding text_or
text_or_twice s d = ground arith

int_or_twice : (z d : ℤ) → int_or (int_or z d) d ≡ int_or z d
unfolding int_or
int_or_twice (pos (suc n)) d = refl
int_or_twice (negsuc n) d = refl
int_or_twice (pos zero) (pos zero) = refl
int_or_twice (pos zero) (pos (suc n)) = refl
int_or_twice (pos zero) (negsuc n) = refl

float_or_twice : (x d : ℕ) → float_or (float_or x d) d ≡ float_or x d
unfolding float_or
float_or_twice x d = ground arith

-- Filling in the defaults twice is filling them in once.
pub apply_defaults_idem : (c : FileConfig) → apply_defaults (apply_defaults c) ≡ apply_defaults c
unfolding apply_defaults
apply_defaults_idem c = simp (text_or_twice, int_or_twice, float_or_twice)

-- A file that says nothing of the listener gives the listener's own default configuration.
pub default_udp :
    (c : FileConfig)
    → c.udp ≡ record { batch_size = pos 0; read_buffer = pos 0; channel_size = pos 0 }
    → udp_transport_config (apply_defaults c).udp ≡ Udp.default_config
unfolding apply_defaults int_or udp_transport_config Udp.default_config
default_udp c h = ap (λ (u : UdpConfig). udp_transport_config (defaulted u)) h
  where
    defaulted : UdpConfig → UdpConfig
    defaulted u = record {
      batch_size = int_or u.batch_size (pos 32);
      read_buffer = int_or u.read_buffer (pos (4 * 1024 * 1024));
      channel_size = int_or u.channel_size (pos 65_536);
    }

negative_buffer :
    (cfg : Udp.Config) (n : ℕ)
    → cfg.batch_size ≡ negsuc n
    → cfg.packet_size ≡ pos 16
    → buffer_size cfg ≡ none
unfolding buffer_size ◌*ℤ◌ ◌+ℤ◌ make_len
negative_buffer cfg n size packet = ground (arith, size, packet)

negative_run :
    (l : Listener) (n : ℕ) (turns : List Turn)
    → l.cfg.batch_size ≡ negsuc n
    → l.cfg.packet_size ≡ pos 16
    → run turns l ≡ none
unfolding run
negative_run l n turns size packet = rw (negative_buffer l.cfg n size packet) refl

kept_size :
    (c : FileConfig) (n : ℕ)
    → c.udp.batch_size ≡ negsuc n
    → (udp_transport_config (apply_defaults c).udp).batch_size ≡ negsuc n
unfolding apply_defaults int_or udp_transport_config
kept_size c n h = ap (λ z. int_or z (pos 32)) h

-- A negative batch size passes every check: whatever the other fields, validate answers the same as without it,
-- and a listener with it panics as soon as it runs.
pub negative_batch_panics :
    (c : FileConfig) (n : ℕ) (l : Listener) (turns : List Turn)
    → c.udp.batch_size ≡ negsuc n
    → l.cfg ≡ udp_transport_config (apply_defaults c).udp
    → (validate (apply_defaults c)
        ≡ validate (apply_defaults (record c { udp = record c.udp { batch_size = pos 32 } })))
      × (run turns l ≡ none)
unfolding validate apply_defaults udp_transport_config Udp.default_config
negative_batch_panics c n l turns negative configured = (
  refl,
  negative_run l n turns (ap (λ (g : Udp.Config). g.batch_size) configured ∙ kept_size c n negative)
      (ap (λ (g : Udp.Config). g.packet_size) configured),
)

-- A listener that is made from a configuration with a positive batch size and a channel size that is not
-- negative never panics: as long as the kernel keeps to its buffer, each datagram of 16 bytes or more waits in the
-- channel or is counted as dropped, and the run ends as its turns say.
pub configured_run :
    (c : UdpConfig) (k room : ℕ) (turns : List Turn)
    → c.batch_size ≡ pos (suc k)
    → c.channel_size ≡ pos room
    → All (IsHonest k (suc k * 44)) turns
    → (l l' : Listener) × (new_listener (udp_transport_config c) ≡ some l)
      × (run turns l ≡ some (l', ending turns))
      × Took l (datagrams turns) l'
unfolding udp_transport_config Udp.default_config new_listener make_len
configured_run c k room turns batch channel honest =
    let l : Listener = record {
      cfg = udp_transport_config c;
      out = [];
      capacity = room;
      dropped_packets = 0;
    } in
    let b : IsBounded l = record { within = omega arith; size = refl } in
    let (l', go, took) = run-Took turns l k b batch honest in (l, l', rw channel refl, go, took)
