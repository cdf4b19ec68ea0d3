-- ===== src/World/Kept.antt =====
-- What a step of the process leaves as it was: its hosts, its channel registry, and the name and the
-- publisher of each channel.
use libpubsub.Base.{refl, subst, ℕ, ◌∙◌, ◌≡◌}
use libpubsub.World.{World, Result, ok, fault, ◌>>=◌}

pub ok_injective {ℓ} : {A : Type ℓ} {a b : A} → ok a ≡ ok b → a ≡ b
ok_injective e = cc

-- A property of the result of a call, where the call returns.
abbrev pub OnOk {ℓ κ} : {A : Type ℓ} → (A → Type κ) → Result A → Type κ
OnOk P (ok a) = P a
OnOk P (fault e) = Unit

pub OnOk-bind {ℓ κ μ ν} :
    {A : Type ℓ} {B : Type κ} (P : A → Type μ) (Q : B → Type ν) (m : Result A) (f : A → Result B)
    → OnOk P m
    → ((a : A) → P a → OnOk Q (f a))
    → OnOk Q (m >>= f)
OnOk-bind P Q (ok a) f h k = k a h
OnOk-bind P Q (fault e) f h k = tt

pub OnOk-map {ℓ κ μ} :
    {A : Type ℓ} (P : A → Type κ) (Q : A → Type μ) (r : Result A)
    → OnOk P r
    → ((a : A) → P a → Q a)
    → OnOk Q r
OnOk-map P Q (ok a) h k = k a h
OnOk-map P Q (fault e) h k = tt

pub OnOk-both {ℓ κ μ} :
    {A : Type ℓ} (P : A → Type κ) (Q : A → Type μ) (r : Result A)
    → OnOk P r
    → OnOk Q r
    → OnOk (λ a. P a × Q a) r
OnOk-both P Q (ok a) p q = (p, q)
OnOk-both P Q (fault e) p q = tt

-- A call that returns has the property of its result.
pub OnOk-ok {ℓ κ} : {A : Type ℓ} (P : A → Type κ) (r : Result A) {a : A} → OnOk P r → r ≡ ok a → P a
OnOk-ok P r h e = subst (OnOk P) e h

pub record Kept (w w' : World) : Type 0 where
  pub same_host : w'.host ≡ w.host
  pub same_hosts : w'.hosts ≡ w.hosts
  pub same_next_host : w'.next_host ≡ w.next_host
  pub same_next_channel : w'.next_channel ≡ w.next_channel
  pub same_channels : w'.channels ≡ w.channels
  pub same_name : (c : ℕ) → (w'.channel c).name ≡ (w.channel c).name
  pub same_publisher : (c : ℕ) → (w'.channel c).publisher ≡ (w.channel c).publisher

pub Kept-refl : (w : World) → Kept w w
Kept-refl w = record {
  same_host = refl;
  same_hosts = refl;
  same_next_host = refl;
  same_next_channel = refl;
  same_channels = refl;
  same_name = λ c. refl;
  same_publisher = λ c. refl;
}

pub Kept-trans : {u v w : World} → Kept u v → Kept v w → Kept u w
Kept-trans p q = record {
  same_host = q.same_host ∙ p.same_host;
  same_hosts = q.same_hosts ∙ p.same_hosts;
  same_next_host = q.same_next_host ∙ p.same_next_host;
  same_next_channel = q.same_next_channel ∙ p.same_next_channel;
  same_channels = q.same_channels ∙ p.same_channels;
  same_name = λ c. q.same_name c ∙ p.same_name c;
  same_publisher = λ c. q.same_publisher c ∙ p.same_publisher c;
}

-- A step that touches no host, and neither the registry nor a channel.
pub Kept-of :
    {w w' : World}
    → w'.host ≡ w.host
    → w'.hosts ≡ w.hosts
    → w'.next_host ≡ w.next_host
    → w'.next_channel ≡ w.next_channel
    → w'.channels ≡ w.channels
    → w'.channel ≡ w.channel
    → Kept w w'
Kept-of h v m n r c = record {
  same_host = h;
  same_hosts = v;
  same_next_host = m;
  same_next_channel = n;
  same_channels = r;
  same_name = λ k. rw c;
  same_publisher = λ k. rw c;
}

-- Calls that leave all of this.
abbrev pub Keeps : World → Result World → Type 0
Keeps w = OnOk (Kept w)
