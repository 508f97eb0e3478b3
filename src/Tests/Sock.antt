-- ===== src/Tests/Sock.antt =====
-- The socket address functions at two addresses.
use unpv13e.Base.{◌↔◌, replicate, ◌%◌, ◌^◌, ◌≡◌, refl, [], ◌∷◌, pos}
use unpv13e.Sock.{
  Sockaddr, sin, sock_cmp_addr, sock_cmp_port, sock_get_port, sock_set_addr, sock_set_port,
  sock_set_wild,
}
use unpv13e.Sock.Laws.{SetTo, HasPort, sock_set_iff}

abbrev near : Sockaddr
near = sin (10 ∷ 0 ∷ 0 ∷ 1 ∷ []) 80

abbrev far : Sockaddr
far = sin (10 ∷ 0 ∷ 0 ∷ 2 ∷ []) 80

same_port : sock_cmp_port near far ≡ pos 1
unfolding sock_cmp_port
same_port = refl

wild : sock_set_wild near ≡ sin (0 ∷ 0 ∷ 0 ∷ 0 ∷ []) 80
unfolding sock_set_wild
wild = refl

sock_set_iff_example :
    ((sock_cmp_addr (sock_set_addr near (10 ∷ 0 ∷ 0 ∷ 2 ∷ 9 ∷ [])) far ≡ pos 0)
      ↔ SetTo (10 ∷ 0 ∷ 0 ∷ 2 ∷ 9 ∷ []) near far)
    × ((sock_cmp_addr (sock_set_wild near) far ≡ pos 0) ↔ SetTo (replicate 16 0) near far)
    × ((sock_cmp_port (sock_set_port near 65616) far ≡ pos 1) ↔ HasPort (65616 % 2 ^ 16) near far)
    × (sock_cmp_addr (sock_set_port near 65616) near ≡ pos 0)
    × (sock_get_port (sock_set_addr near (10 ∷ 0 ∷ 0 ∷ 2 ∷ 9 ∷ [])) ≡ sock_get_port near)
    × (sock_get_port (sock_set_wild near) ≡ sock_get_port near)
sock_set_iff_example = sock_set_iff near far (10 ∷ 0 ∷ 0 ∷ 2 ∷ 9 ∷ []) 65616 tt
