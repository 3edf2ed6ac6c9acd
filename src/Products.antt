-- ===== src/Products.antt =====
-- apps/api/src/products/product.service.ts: the products of the sellers and their images.
pub mod Images
pub mod Service
pub mod Kept
pub mod Outcomes
