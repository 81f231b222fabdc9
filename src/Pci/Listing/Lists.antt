-- ===== src/Pci/Listing/Lists.antt =====
-- ASNU/src/PCI/pci.c: what a command of `PciListDevicesAttached` lists.
use terracotta_os.Prelude.{
  ℕ, ◌+◌, ◌%◌, ◌<◌, ◌≡◌, refl, ap, ◌∙◌, List, [], ◌∷◌, ◌++◌, true, false, ◌&&◌, ◌==◌, arith, length,
  length-append,
}
use mathlib.Core.Path.{ap₂}
use terracotta_os.Word.{u32_mod}
use terracotta_os.Io.{Bus}
use terracotta_os.Pci.{PciDevice, Location, location, Cmd, ◌>>=◌}
use terracotta_os.Pci.Space.{Space}
use terracotta_os.Pci.Listing.{
  Printk, pci_log_device_info, coverage, total_possible, Listing, prepend, is_single, list_device,
  go_on,
}
use terracotta_os.Pci.Listing.Spec.{places, places-append}

module _ (b : Bus) (c : Space b) (config : ℕ → ℕ) where
  abbrev pub Shows : b.Devices → Type 0
  Shows d = (x : ℕ) → c.config d x ≡ config x

  -- A command ends, adds one for each of the functions `ls` to `found`, names these in its lines, and
  -- leaves the configuration space as it was.
  pub record Lists (m : Cmd b Listing) (d : b.Devices) (found : ℕ) (ls : List Location)
      : Type 0 where
    pub lines : List Printk
    pub answer : (m d).0 ≡ (found + length ls, lines)
    pub named : places lines ≡ ls
    pub kept : Shows (m d).1

  go_on-first :
      (next : ℕ → Cmd b Listing)
      → (r : Listing) → (n : ℕ) → (lines : List Printk) → (d : b.Devices) → r ≡ (n, lines)
      → go_on b next r d ≡ (prepend lines (next n d).0, (next n d).1)
  unfolding go_on
  go_on-first next r n lines d e = rw (e, go_on) refl

  prepend-some :
      (first lines : List Printk)
      → (r : Listing) → (n : ℕ) → r ≡ (n, lines)
      → prepend first r ≡ (n, first ++ lines)
  prepend-some first lines r n e = rw (e, prepend) refl

  pub go_on-Lists :
      (m : Cmd b Listing)
      → (next : ℕ → Cmd b Listing) → (d : b.Devices) → (found : ℕ) → (ls more : List Location)
      → Lists m d found ls
      → ((d' : b.Devices) → Shows d' → Lists (next (found + length ls)) d' (found + length ls) more)
      → Lists (m >>= go_on b next) d found (ls ++ more)
  go_on-Lists m next d found ls more h k =
      let r = k (m d).1 h.kept in
      let e = go_on-first next (m d).0 (found + length ls) h.lines (m d).1 h.answer in
      record {
        lines = h.lines ++ r.lines;
        answer =
            ap (λ p. p.0) e
            ∙ prepend-some h.lines r.lines _ _ r.answer
            ∙ ap (λ n. (n, h.lines ++ r.lines)) (omega (arith, length-append ls more));
        named = places-append h.lines r.lines ∙ ap₂ ◌++◌ h.named r.named;
        kept = λ x. ap (λ p. c.config p.1 x) e ∙ r.kept x;
      }

  module _ (l : Location) (found : ℕ) (next : ℕ → Cmd b Listing) (dev : PciDevice)
      (at_l : location dev ≡ l) (few : found + 1 < u32_mod) (d : b.Devices) where
    same : (found + 1) % u32_mod ≡ found + 1
    same = omega arith

    log-places : places (pci_log_device_info dev) ≡ l ∷ []
    unfolding pci_log_device_info places
    log-places = ground (arith, at_l)

    logged : places (pci_log_device_info dev ++ coverage (found + 1) total_possible ∷ []) ≡ l ∷ []
    unfolding places
    logged =
        places-append (pci_log_device_info dev) (coverage (found + 1) total_possible ∷ [])
        ∙ ap (λ ls. ls ++ []) log-places

    pub list_device-last :
        (l.func == 0 && is_single dev.header_type_raw) ≡ true
        → Shows d
        → Lists (list_device b l found next dev) d found (l ∷ [])
    unfolding list_device
    list_device-last t s = record {
      lines = pci_log_device_info dev;
      answer = rw (t, same) (ap (λ n. (n, pci_log_device_info dev)) (omega arith));
      named = log-places;
      kept = rw t s;
    }

    pub list_device-next :
        (more : List Location)
        → (l.func == 0 && is_single dev.header_type_raw) ≡ false
        → Lists (next (found + 1)) d (found + 1) more
        → Lists (list_device b l found next dev) d found (l ∷ more)
    unfolding list_device
    list_device-next more t r = record {
      lines = (pci_log_device_info dev ++ coverage (found + 1) total_possible ∷ []) ++ r.lines;
      answer =
          rw (t, same)
            (prepend-some (pci_log_device_info dev ++ coverage (found + 1) total_possible ∷ [])
                r.lines _ _ r.answer
              ∙ ap
                  (λ n. (
                    n,
                    (pci_log_device_info dev ++ coverage (found + 1) total_possible ∷ [])
                        ++ r.lines,
                  ))
                  (omega arith));
      named =
          places-append (pci_log_device_info dev ++ coverage (found + 1) total_possible ∷ [])
            r.lines
          ∙ ap₂ ◌++◌ logged r.named;
      kept = λ x. rw (t, same) (r.kept x);
    }
